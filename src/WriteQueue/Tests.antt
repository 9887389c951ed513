-- ===== src/WriteQueue/Tests.antt =====
-- A release.
use mini_web_srv.Base.{◌≡◌, refl}
use mini_web_srv.WriteQueue.{Fifo, release_fifo}

abbrev wrapped : Fifo
wrapped = record { free_begin = 0; used_begin = 3 }

abbrev middle : Fifo
middle = record { free_begin = 5; used_begin = 3 }

release_sample : release_fifo 8 middle 3 2 ≡ record { free_begin = 0; used_begin = 0 }
unfolding release_fifo
release_sample = refl
