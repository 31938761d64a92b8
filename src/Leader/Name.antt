-- ===== src/Leader/Name.antt =====
-- The order of pod names: the expression `.*-(\d+)` and the comparison of `getLeader`
-- (pkg/controllers/apps/sidekick_controller.go). Names have no line breaks, which `.` would not match.
use Prim.Native.Char.{code}
use sidekick.Prelude.{
  ℕ, ◌+◌, ◌-◌, ◌*◌, ◌<◌, ◌≡◌, refl, String, Bool, true, false, ◌&&◌, Option, none, some, List, [],
  ◌∷◌, arith, ltb, leb, eqb, if◌then◌else◌,
}

-- The characters of a name.
abbrev pub codes : String → List ℕ
codes String.[] = []
codes (String.◌∷◌ c s) = code c ∷ codes s

abbrev is_digit : ℕ → Bool
is_digit c = leb b'0' c && leb c b'9'

-- `\d+` at the start: the digits, which are none if the expression does not match here.
leading_digits : List ℕ → List ℕ
leading_digits [] = []
leading_digits (c ∷ rest) = let more = leading_digits rest in if is_digit c then c ∷ more else []

nonempty : List ℕ → Option (List ℕ)
nonempty [] = none
nonempty (d ∷ ds) = some (d ∷ ds)

-- `.*` is greedy, so the group is the digits behind the last dash that a digit follows.
unfoldable pub find_submatch : List ℕ → Option (List ℕ)
unfolding leading_digits nonempty
find_submatch [] = none
find_submatch (c ∷ rest) = elim (find_submatch rest) [
  | some digits ↦ some digits
  | none ↦ if eqb c b'-' then nonempty (leading_digits rest) else none
]

decimal : ℕ → List ℕ → ℕ
decimal n [] = n
decimal n (c ∷ rest) = decimal (n * 10 + (c - b'0')) rest

abbrev max_int : ℕ
max_int = 9223372036854775807

-- `strconv.Atoi` of digits: out of range it returns the largest int, beside an error that the
-- caller drops.
unfoldable pub atoi : List ℕ → ℕ
unfolding decimal
atoi digits = let n = decimal 0 digits in if ltb max_int n then max_int else n

-- `<` on strings.
unfoldable pub lex_less : List ℕ → List ℕ → Bool
lex_less [] [] = false
lex_less [] (_ ∷ _) = true
lex_less (_ ∷ _) [] = false
lex_less (a ∷ s) (b ∷ t) = let rest = lex_less s t in if eqb a b then rest else ltb a b

abbrev pub ordinal : String → Option (List ℕ)
ordinal name = find_submatch (codes name)

compare_ordinals : Option (List ℕ) → Option (List ℕ) → Bool → Bool
compare_ordinals (some oi) (some oj) otherwise = ltb (atoi oi) (atoi oj)
compare_ordinals none _ otherwise = otherwise
compare_ordinals (some oi) none otherwise = otherwise

unfoldable pub name_less : String → String → Bool
unfolding compare_ordinals
name_less i j = compare_ordinals (ordinal i) (ordinal j) (lex_less (codes i) (codes j))

-- The number of a name, 0 for a name without one.
unfoldable pub rank : String → ℕ
rank name = elim (ordinal name) [ some digits ↦ atoi digits | none ↦ 0 ]

abbrev pub HasOrdinal : String → Type 0
HasOrdinal name = (digits : List ℕ) × (ordinal name ≡ some digits)

-- Names with numbers are ordered by their numbers.
pub name_less-rank :
    (i j : String) → HasOrdinal i → HasOrdinal j → name_less i j ≡ ltb (rank i) (rank j)
unfolding name_less rank
name_less-rank i j (oi, p) (oj, q) = ground arith

numbers : (rank "db-2" ≡ 2) × (rank "db-10" ≡ 10) × (rank "a-7-b-12x" ≡ 12) × (ordinal "web" ≡ none)
unfolding rank find_submatch atoi
numbers = (refl, refl, refl, refl)

-- Where, of two numbered names, the one with the greater number comes as a string before a name
-- without a number, and that before the other, the comparison has a cycle of the three.
pub name_less-cycle :
    (p q r : String)
    → HasOrdinal p
    → HasOrdinal q
    → ordinal r ≡ none
    → rank p < rank q
    → lex_less (codes q) (codes r) ≡ true
    → lex_less (codes r) (codes p) ≡ true
    → (name_less p q ≡ true) × (name_less q r ≡ true) × (name_less r p ≡ true)
unfolding name_less rank
name_less-cycle p q r (op, hp) (oq, hq) hr l a b = ground arith
