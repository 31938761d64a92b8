-- ===== src/GrpcWiring/Domain.antt =====
-- The DNS domain of the cluster: `findDomain` and `resolveDomain` of
-- pkg/controllers/apps/grpc_wiring.go. The file /etc/resolv.conf is an argument.
pub mod Resolved
use Prim.Native.Char.{Char, code}
use sidekick.Prelude.{
  ℕ, String, ◌≡◌, refl, Bool, true, false, not, ◌&&◌, ◌||◌, Option, none, some, List, [], ◌∷◌, ◌++◌,
  ◌==◌, if◌then◌else◌, is_some, arith, leb, eqb, Result, ok, err, failed,
}
use sidekick.Prelude.Lists.{all, keep_if}
use sidekick.GrpcWiring.Names.{split}

-- `unicode.IsSpace`
abbrev pub is_space_code : ℕ → Bool
is_space_code n =
    leb 9 n && leb n 13
    || (eqb n 32
        || (eqb n 133
            || (eqb n 160
                || (eqb n 5760
                    || (leb 8192 n && leb n 8202
                        || (eqb n 8232
                            || (eqb n 8233 || (eqb n 8239 || (eqb n 8287 || eqb n 12288)))))))))

abbrev pub is_space : Char → Bool
is_space c = is_space_code (code c)

unfoldable pub trim_left : String → String
trim_left String.[] = String.[]
trim_left (String.◌∷◌ c s) = let rest = trim_left s in if is_space c then rest else String.◌∷◌ c s

abbrev pub keep_char : Char → String → String
keep_char c String.[] = if is_space c then String.[] else String.◌∷◌ c String.[]
keep_char c (String.◌∷◌ d s) = String.◌∷◌ c (String.◌∷◌ d s)

unfoldable pub trim_right : String → String
trim_right String.[] = String.[]
trim_right (String.◌∷◌ c s) = keep_char c (trim_right s)

-- `strings.TrimSpace`
abbrev pub trim_space : String → String
trim_space s = trim_right (trim_left s)

-- `strings.TrimPrefix`, where `strings.HasPrefix`
unfoldable pub strip_prefix : String → String → Option String
strip_prefix String.[] s = some s
strip_prefix (String.◌∷◌ c prefix) String.[] = none
strip_prefix (String.◌∷◌ c prefix) (String.◌∷◌ d s) =
    let rest = strip_prefix prefix s in if eqb (code c) (code d) then rest else none

abbrev pub has_prefix : String → String → Bool
has_prefix prefix s = is_some (strip_prefix prefix s)

-- `strings.FieldsSeq`
abbrev pub fields : String → List String
fields s = keep_if (λ word. not (word == "")) (split is_space s)

abbrev pub domain_of : String → Option String
domain_of field = if has_prefix "svc.svc." field then none else strip_prefix "svc." field

-- The loop over the fields of a search line.
unfoldable pub first_domain : List String → Option String
first_domain [] = none
first_domain (field ∷ rest) =
    let later = first_domain rest in elim (domain_of field) [ some d ↦ some d | none ↦ later ]

abbrev pub domain_or_error : Option String → Result String
domain_or_error none = err (failed "failed to find domain")
domain_or_error (some d) = ok d

abbrev pub is_ignored : String → Bool
is_ignored line = line == "" || has_prefix "#" line

abbrev pub is_search : String → Bool
is_search line = not (is_ignored line) && has_prefix "search " line

-- What the file holds: its lines, and whether reading broke off after them.
pub record ResolvConf : Type 0 where
  pub lines : List String
  pub broken : Bool

-- The loop over the lines, which the first search line ends.
unfoldable pub resolve_lines : Bool → List String → Result String
resolve_lines broken [] =
    if broken then err (failed "error reading") else err (failed "no suitable domain found")
resolve_lines broken (text ∷ rest) =
    let line = trim_space text in
    let later = resolve_lines broken rest in
    if is_search line then domain_or_error (first_domain (fields line)) else later

unfoldable pub resolve_domain : Result ResolvConf → Result String
resolve_domain (ok file) = resolve_lines file.broken file.lines
resolve_domain (err e) = err (failed "failed to open")

abbrev pub domain_or_default : Result String → String
domain_or_default (ok d) = d
domain_or_default (err e) = "cluster.local"

-- On the first call, whose answer later calls return.
unfoldable pub find_domain : Result ResolvConf → String
find_domain file = domain_or_default (resolve_domain file)

pub resolve_lines-search :
    (broken : Bool) (before after : List String) (line : String)
    → all (λ text. not (is_search (trim_space text))) before ≡ true
    → is_search (trim_space line) ≡ true
    → resolve_lines broken (before ++ line ∷ after)
      ≡ domain_or_error (first_domain (fields (trim_space line)))
unfolding resolve_lines
resolve_lines-search broken [] after line h s = ground arith
resolve_lines-search broken (text ∷ before) after line h s =
    ground (arith, resolve_lines-search broken before after line)

pub first_domain-found :
    (before after : List String) (field d : String)
    → all (λ f. not (is_some (domain_of f))) before ≡ true
    → domain_of field ≡ some d
    → first_domain (before ++ field ∷ after) ≡ some d
unfolding first_domain
first_domain-found [] after field d h e = ground arith
first_domain-found (f ∷ before) after field d h e =
    ground (arith, first_domain-found before after field d)
