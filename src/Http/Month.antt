-- ===== src/Http/Month.antt =====
-- Header.cpp, `GetDateTime`: the month of a date, read from its ninth to eleventh byte. `none` is -1.
use mini_web_srv.Base.{
  ℕ, ◌≡◌, refl, Option, none, some, ◌∷◌, ◌++◌, Bytes, ◌==◌, if◌then◌else◌, get_or, codes,
}

unfoldable pub get_month : Bytes → Option ℕ
get_month value =
    let a = get_or value 8 0 in
    let b = get_or value 9 0 in
    let c = get_or value 10 0 in
    if a == b'A'
    then (if b == b'p' then some 3 else if b == b'u' then some 7 else none)
    else if a == b'D'
    then some 11
    else if a == b'F'
    then some 2
    else if a == b'J'
    then (if b == b'a'
        then some 0
        else if c == b'l'
        then some 6
        else if c == b'n'
        then some 5
        else none)
    else if a == b'M'
    then (if c == b'r' then some 2 else if c == b'y' then some 4 else none)
    else if a == b'N'
    then some 10
    else if a == b'O'
    then some 9
    else if a == b'S'
    then some 8
    else none

pub data Month : Type 0 where
  january : Month
  february : Month
  march : Month
  april : Month
  may : Month
  june : Month
  july : Month
  august : Month
  september : Month
  october : Month
  november : Month
  december : Month

abbrev pub month_name : Month → Bytes
month_name january = codes "Jan"
month_name february = codes "Feb"
month_name march = codes "Mar"
month_name april = codes "Apr"
month_name may = codes "May"
month_name june = codes "Jun"
month_name july = codes "Jul"
month_name august = codes "Aug"
month_name september = codes "Sep"
month_name october = codes "Oct"
month_name november = codes "Nov"
month_name december = codes "Dec"

-- Months count from 0, as in `tm_mon`.
abbrev pub month_number : Month → ℕ
month_number january = 0
month_number february = 1
month_number march = 2
month_number april = 3
month_number may = 4
month_number june = 5
month_number july = 6
month_number august = 7
month_number september = 8
month_number october = 9
month_number november = 10
month_number december = 11

-- A date as RFC 1123 writes it: the day of the week, the day of the month, the month, and the rest.
abbrev pub date_text : ℕ → ℕ → ℕ → ℕ → ℕ → Month → Bytes → Bytes
date_text w x y d e m rest = w ∷ x ∷ y ∷ b',' ∷ b' ' ∷ d ∷ e ∷ b' ' ∷ (month_name m ++ rest)

abbrev pub IsRight : Month → Type 0
IsRight february = ⊥
IsRight _ = Unit {0}

-- Every month but February is read as its number, whatever stands around it.
get_month-date_text :
    (m : Month) (w x y d e : ℕ) (rest : Bytes)
    → IsRight m
    → get_month (date_text w x y d e m rest) ≡ some (month_number m)
unfolding get_month
get_month-date_text january w x y d e rest r = refl
get_month-date_text february w x y d e rest r = absurd r
get_month-date_text march w x y d e rest r = refl
get_month-date_text april w x y d e rest r = refl
get_month-date_text may w x y d e rest r = refl
get_month-date_text june w x y d e rest r = refl
get_month-date_text july w x y d e rest r = refl
get_month-date_text august w x y d e rest r = refl
get_month-date_text september w x y d e rest r = refl
get_month-date_text october w x y d e rest r = refl
get_month-date_text november w x y d e rest r = refl
get_month-date_text december w x y d e rest r = refl

-- A date in February is read as the same date in March, whatever stands around the month.
pub get_month_february :
    (w x y d e : ℕ) (rest : Bytes)
    → get_month (date_text w x y d e february rest) ≡ get_month (date_text w x y d e march rest)
unfolding get_month
get_month_february w x y d e rest = refl
