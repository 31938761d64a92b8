-- ===== src/GrpcWiring/Domain/Resolved.antt =====
-- What `findDomain` (pkg/controllers/apps/grpc_wiring.go) finds in the file that Kubernetes writes.
use mathlib.Core.Path.{subst}
use Prim.Native.Char.{Char, code}
use text.Mathlib.TextEquality.{Char-path}
use sidekick.Prelude.{
  String, ◌≡◌, ◌≢◌, refl, ap, ◌∙◌, ◌⊎◌, inl, inr, Bool, true, false, not, ◌&&◌, none, some, List,
  [], ◌∷◌, ◌++◌, ◌==◌, arith, eq_iff, eqb, ok, Bool-cases,
}
use sidekick.Prelude.Lists.{all, keep_if}
use sidekick.GrpcWiring.Names.{split, concat, has_none, split-concat, split-has_none}
use sidekick.GrpcWiring.Domain.{
  is_space, trim_left, keep_char, trim_right, trim_space, strip_prefix, fields, domain_of,
  first_domain, is_search, has_prefix, domain_or_error, domain_or_default, resolve_domain,
  find_domain, resolve_lines-search, first_domain-found,
}

abbrev is_dot : Char → Bool
is_dot c = eqb (code c) b'.'

abbrev spaced : String → String → String
spaced s t = concat s (String.◌∷◌ " " t)

abbrev dotted : String → String → String
dotted s t = concat s (String.◌∷◌ "." t)

abbrev service_domain : String → String
service_domain d = dotted "svc" d

-- The search line of a pod: `search demo.svc.cluster.local svc.cluster.local cluster.local`.
abbrev pub search_line : String → String → String
search_line namespace d =
    spaced "search" (spaced (dotted namespace (service_domain d)) (spaced (service_domain d) d))

abbrev is_word : String → Bool
is_word s = not (s == "")

keep_if-append :
    (p : String → Bool) (xs ys : List String) → keep_if p (xs ++ ys) ≡ keep_if p xs ++ keep_if p ys
keep_if-append p [] ys = refl
keep_if-append p (x ∷ xs) ys = ground (arith, keep_if-append p xs ys)

has_none-concat :
    (p : Char → Bool) (s t : String) → has_none p (concat s t) ≡ (has_none p s && has_none p t)
unfolding concat
has_none-concat p String.[] t = refl
has_none-concat p (String.◌∷◌ c s) t = ground (arith, has_none-concat p s t)

fields-spaced : (s t : String) → fields (spaced s t) ≡ fields s ++ fields t
fields-spaced s t =
    ap (keep_if is_word) (split-concat is_space " " s t refl)
    ∙ keep_if-append is_word (split is_space s) (split is_space t)

fields-word : (s : String) → has_none is_space s ≡ true → s ≢ "" → fields s ≡ s ∷ []
fields-word s h n = ap (keep_if is_word) (split-has_none is_space s h) ∙ ground (arith, eq_iff s "")

keep_char-concat :
    (c e : Char) (s t : String)
    → keep_char c (concat s (String.◌∷◌ e t)) ≡ String.◌∷◌ c (concat s (String.◌∷◌ e t))
unfolding concat
keep_char-concat c e String.[] t = refl
keep_char-concat c e (String.◌∷◌ f s) t = refl

trim_right-concat :
    (e : Char) (s t : String)
    → trim_right (String.◌∷◌ e t) ≡ String.◌∷◌ e t
    → trim_right (concat s (String.◌∷◌ e t)) ≡ concat s (String.◌∷◌ e t)
unfolding trim_right concat
trim_right-concat e String.[] t h = h
trim_right-concat e (String.◌∷◌ c s) t h =
    ap (keep_char c) (trim_right-concat e s t h) ∙ keep_char-concat c e s t

keep_char-word : (c : Char) (s : String) → is_space c ≡ false → keep_char c s ≡ String.◌∷◌ c s
keep_char-word c String.[] h = rw h refl
keep_char-word c (String.◌∷◌ d s) h = refl

trim_right-word : (s : String) → has_none is_space s ≡ true → trim_right s ≡ s
unfolding trim_right
trim_right-word String.[] h = refl
trim_right-word (String.◌∷◌ c s) h =
    ap (keep_char c) (trim_right-word s (ground arith)) ∙ keep_char-word c s (ground arith)

-- Where a name is without dots, a prefix of that kind is found only at the name itself.
strip_dotted :
    (p name rest : String)
    → has_none is_dot p ≡ true
    → has_none is_dot name ≡ true
    → (strip_prefix (dotted p "") (dotted name rest) ≡ none) ⊎ (p ≡ name)
unfolding strip_prefix concat
strip_dotted String.[] String.[] rest h k = inr refl
strip_dotted String.[] (String.◌∷◌ a name) rest h k = inl (ground arith)
strip_dotted (String.◌∷◌ c p) String.[] rest h k = inl (ground arith)
strip_dotted (String.◌∷◌ c p) (String.◌∷◌ a name) rest h k =
    elim (strip_dotted p name rest (ground arith) (ground arith)) [
      | inl missing ↦ inl (ground arith)
      | inr same ↦ elim (Bool-cases (eqb (code c) (code a))) [
        | inl t ↦ inr (cc (Char-path c a (ground arith), same))
        | inr n ↦ inl (rw n refl)
      ]
    ]

service_domain-domain :
    (d : String) → strip_prefix "svc." d ≡ none → domain_of (service_domain d) ≡ some d
unfolding strip_prefix concat
service_domain-domain d h = rw h refl

domain_of-none : (f : String) → strip_prefix "svc." f ≡ none → domain_of f ≡ none
domain_of-none f h = ground arith

pod_domain-none :
    (name d : String)
    → has_none is_dot name ≡ true
    → domain_of (dotted name (service_domain d)) ≡ none
unfolding strip_prefix concat
pod_domain-none name d h = elim (strip_dotted "svc" name (service_domain d) refl h) [
  | inl missing ↦ domain_of-none (dotted name (service_domain d)) missing
  | inr same ↦ subst (λ n. domain_of (dotted n (service_domain d)) ≡ none) same refl
]

cons-ne : (c : Char) (s : String) → String.◌∷◌ c s ≢ ""
cons-ne c s h = cc

concat-ne : (s : String) (c : Char) (t : String) → concat s (String.◌∷◌ c t) ≢ ""
unfolding concat
concat-ne String.[] c t = cons-ne c t
concat-ne (String.◌∷◌ d s) c t = cons-ne d (concat s (String.◌∷◌ c t))

is_search-word :
    (line : String)
    → line ≢ ""
    → has_prefix "#" line ≡ false
    → has_prefix "search " line ≡ true
    → is_search line ≡ true
is_search-word line n h k = ground (arith, eq_iff line "")

fields-first :
    (s t : String) (more : List String)
    → fields s ≡ s ∷ []
    → fields t ≡ more
    → fields (spaced s t) ≡ s ∷ more
fields-first s t more h k = fields-spaced s t ∙ (ap (λ l. l ++ fields t) h ∙ ap (λ l. s ∷ l) k)

trim_right-spaced :
    (s t : String) → t ≢ "" → trim_right t ≡ t → trim_right (spaced s t) ≡ spaced s t
unfolding trim_right
trim_right-spaced s String.[] n h = absurd (n refl)
trim_right-spaced s (String.◌∷◌ e t) n h =
    trim_right-concat " " s (String.◌∷◌ e t) (ap (keep_char " ") h)

module _ (namespace d : String) (no_dot : has_none is_dot namespace ≡ true)
    (no_space : has_none is_space namespace ≡ true) (d_no_space : has_none is_space d ≡ true)
    (there : d ≢ "") where
  service_domain-no_space : has_none is_space (service_domain d) ≡ true
  service_domain-no_space = has_none-concat is_space "svc" (String.◌∷◌ "." d) ∙ d_no_space

  pod_domain-no_space : has_none is_space (dotted namespace (service_domain d)) ≡ true
  pod_domain-no_space =
      has_none-concat is_space namespace (String.◌∷◌ "." (service_domain d))
      ∙ rw (no_space, service_domain-no_space) refl

  fields-search_line :
      fields (search_line namespace d)
      ≡ "search" ∷ dotted namespace (service_domain d) ∷ service_domain d ∷ d ∷ []
  fields-search_line = fields-first "search" _ _ (fields-word "search" refl (cons-ne _ _)) (
      fields-first (dotted namespace (service_domain d)) _ _
        (fields-word _ pod_domain-no_space (concat-ne namespace "." (service_domain d)))
        (fields-first (service_domain d) d _
          (fields-word _ service_domain-no_space (concat-ne "svc" "." d))
          (fields-word d d_no_space there)))

  trim-search_line : trim_space (search_line namespace d) ≡ search_line namespace d
  unfolding trim_left concat
  trim-search_line =
      let last = trim_right-spaced (service_domain d) d there (trim_right-word d d_no_space) in
      let more =
        trim_right-spaced (dotted namespace (service_domain d)) (spaced (service_domain d) d)
          (concat-ne (service_domain d) " " d) last in
      trim_right-spaced "search" _ (concat-ne (dotted namespace (service_domain d)) " " _) more

  search_line-search : is_search (search_line namespace d) ≡ true
  unfolding strip_prefix concat
  search_line-search = is_search-word (search_line namespace d) (concat-ne "search" " " _) refl refl

  first_domain-search_line :
      strip_prefix "svc." d ≡ none
      → first_domain ("search" ∷ dotted namespace (service_domain d) ∷ service_domain d ∷ d ∷ [])
        ≡ some d
  unfolding strip_prefix
  first_domain-search_line h =
      first_domain-found ("search" ∷ dotted namespace (service_domain d) ∷ []) (d ∷ [])
        (service_domain d) d (rw (pod_domain-none namespace d no_dot) refl)
        (service_domain-domain d h)

  -- In a pod of the cluster the domain is found: where the file holds, after lines that are no search
  -- lines, the search line of a namespace whose name has no dot, and the domain is a word that does
  -- not itself start with "svc.".
  pub find_domain-search_line :
      (broken : Bool) (before after : List String)
      → strip_prefix "svc." d ≡ none
      → all (λ text. not (is_search (trim_space text))) before ≡ true
      → find_domain
          (ok (record { lines = before ++ search_line namespace d ∷ after; broken = broken }))
        ≡ d
  unfolding find_domain resolve_domain
  find_domain-search_line broken before after h k =
      let line : String = search_line namespace d in
      let searched : is_search (trim_space line) ≡ true =
        ap is_search trim-search_line ∙ search_line-search in
      let words = ap fields trim-search_line ∙ fields-search_line in
      ap domain_or_default (
        resolve_lines-search broken before after line k searched
        ∙ ap domain_or_error (ap first_domain words ∙ first_domain-search_line h))
