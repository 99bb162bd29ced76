-- ===== src/Blanklines/Places.antt =====
-- Where the positions lie that `checkFile` finds, and that none is found twice.
use medik8s_system_tests.Base.{
  ℕ, ◌≢◌, ◌≤◌, ◌<◌, List, [], ◌∷◌, ◌++◌, All, All-map, All-append, arith,
}
use medik8s_system_tests.Blanklines.{Position}

abbrev pub Inside : (lo hi : ℕ) → Position → Type 0
Inside lo hi position = (lo ≤ position.offset) × (position.offset < hi)

-- No two of them stand at the same place.
abbrev pub Apart : (first second : List Position) → Type 0
Apart first second = All (λ p. All (λ q. p.offset ≢ q.offset) second) first

abbrev pub Distinct : List Position → Type 0
Distinct [] = Unit
Distinct (position ∷ positions) =
    All (λ q. position.offset ≢ q.offset) positions × Distinct positions

abbrev pub Clear : (lo hi : ℕ) → List Position → Type 0
Clear lo hi found = Distinct found × All (Inside lo hi) found

pub widen :
    (lo hi low high : ℕ) (found : List Position)
    → low ≤ lo
    → hi ≤ high
    → All (Inside lo hi) found
    → All (Inside low high) found
widen lo hi low high found below above =
    All-map found (λ p (l, h). (omega (arith, l, below), omega (arith, h, above)))

pub Inside-Apart :
    (lo middle above hi : ℕ) (first second : List Position)
    → middle ≤ above
    → All (Inside lo middle) first
    → All (Inside above hi) second
    → Apart first second
Inside-Apart lo middle above hi first second order before after =
    All-map first
      (λ p (l, h).
        All-map second (λ q (k, i). λ same. absurd (omega (arith, h, k, order, same))) after)
      before

pub Inside-Apart_back :
    (lo middle above hi : ℕ) (first second : List Position)
    → middle ≤ above
    → All (Inside lo middle) first
    → All (Inside above hi) second
    → Apart second first
Inside-Apart_back lo middle above hi first second order before after =
    All-map second
      (λ q (k, i).
        All-map first (λ p (l, h). λ same. absurd (omega (arith, h, k, order, same))) before)
      after

pub Apart-append_left : (xs ys zs : List Position) → Apart xs zs → Apart ys zs → Apart (xs ++ ys) zs
Apart-append_left xs ys zs = All-append (λ p. All (λ q. p.offset ≢ q.offset) zs) xs ys

pub Apart-append_right :
    (xs ys zs : List Position) → Apart xs ys → Apart xs zs → Apart xs (ys ++ zs)
Apart-append_right [] ys zs left right = tt
Apart-append_right (p ∷ xs) ys zs (here, left) (there, right) =
    (All-append (λ q. p.offset ≢ q.offset) ys zs here there, Apart-append_right xs ys zs left right)

pub Distinct-append :
    (xs ys : List Position) → Distinct xs → Distinct ys → Apart xs ys → Distinct (xs ++ ys)
Distinct-append [] ys left right apart = right
Distinct-append (p ∷ xs) ys (here, left) right (there, apart) =
    (All-append (λ q. p.offset ≢ q.offset) xs ys here there, Distinct-append xs ys left right apart)

-- What is found in one place and behind it.
pub Clear-append :
    (lo middle hi : ℕ) (xs ys : List Position)
    → lo ≤ middle
    → middle ≤ hi
    → Clear lo middle xs
    → Clear middle hi ys
    → Clear lo hi (xs ++ ys)
Clear-append lo middle hi xs ys below above (left, before) (right, after) = (
  Distinct-append xs ys left right
      (Inside-Apart lo middle middle hi xs ys (omega arith) before after),
  All-append (Inside lo hi) xs ys (widen lo middle lo hi xs (omega arith) above before)
      (widen middle hi lo hi ys below (omega arith) after),
)

-- What the statements of a list are found with, and what is found in them.
abbrev pub Parts : (lo hi : ℕ) → (between within : List Position) → Type 0
Parts lo hi between within = Clear lo hi between × Clear lo hi within × Apart between within

pub Parts-Clear :
    (lo hi : ℕ) (between within : List Position)
    → Parts lo hi between within
    → Clear lo hi (between ++ within)
Parts-Clear lo hi between within ((left, before), (right, after), apart) = (
  Distinct-append between within left right apart,
  All-append (Inside lo hi) between within before after,
)

-- Two statements, and what follows them.
pub Parts-cons :
    (lo end next hi : ℕ) (pair between within later : List Position)
    → lo ≤ end
    → end ≤ next
    → next ≤ hi
    → Clear end next pair
    → Clear lo end within
    → Parts next hi between later
    → Parts lo hi (pair ++ between) (within ++ later)
Parts-cons lo end next hi pair between within later a b c (dp, ip) (dw, iw)
      ((db, ib), (dl, il), apart) =
    let rest = Inside-Apart_back lo end next hi within between b iw ib in
    let inner = Inside-Apart end next next hi pair later (omega arith) ip il in
    let here = Inside-Apart_back lo end end next within pair (omega arith) iw ip in
    (
      (
        Distinct-append pair between dp db
            (Inside-Apart end next next hi pair between (omega arith) ip ib),
        All-append (Inside lo hi) pair between (widen end next lo hi pair a c ip)
            (widen next hi lo hi between (omega (arith, a, b)) (omega arith) ib),
      ),
      (
        Distinct-append within later dw dl (Inside-Apart lo end next hi within later b iw il),
        All-append (Inside lo hi) within later
            (widen lo end lo hi within (omega arith) (omega (arith, b, c)) iw)
            (widen next hi lo hi later (omega (arith, a, b)) (omega arith) il),
      ),
      Apart-append_left pair between (within ++ later)
          (Apart-append_right pair within later here inner)
          (Apart-append_right between within later rest apart),
    )

-- The statements of a clause, and what stands before its colon.
pub clause-Clear :
    (lo colon hi : ℕ) (between within later : List Position)
    → lo ≤ colon
    → colon ≤ hi
    → Clear lo colon within
    → Parts colon hi between later
    → Clear lo hi (between ++ (within ++ later))
clause-Clear lo colon hi between within later below above clear parts =
    Parts-Clear lo hi between (within ++ later) (
      Parts-cons lo colon colon hi [] between within later below (omega arith) above (tt, tt) clear
        parts)
