-- ===== src/GrpcWiring/Names.antt =====
-- The name of the operator's Deployment, from the name of its pod: `deploymentNameForPod` of
-- pkg/controllers/apps/grpc_wiring.go.
use Prim.Native.Char.{Char, code}
use text.Mathlib.TextEquality.{Char-path}
use sidekick.Prelude.{
  ◌+◌, ◌-◌, ◌≤◌, ◌≡◌, refl, ap, ◌∙◌, String, Bool, true, List, [], ◌∷◌, ◌++◌, arith, leb, eqb, not,
  ◌&&◌, if◌then◌else◌, Bool-cases, inl, inr,
}
use sidekick.Prelude.Lists.{length, take, split-append, length-append}

abbrev pub is_dash : Char → Bool
is_dash c = eqb (code c) b'-'

push : Char → List String → List String
push c [] = String.◌∷◌ c String.[] ∷ []
push c (part ∷ rest) = String.◌∷◌ c part ∷ rest

-- `strings.Split(s, "-")`, for other separators too, which has always a part.
unfoldable pub split : (Char → Bool) → String → List String
unfolding push
split is_separator String.[] = String.[] ∷ []
split is_separator (String.◌∷◌ c s) =
    let rest = split is_separator s in if is_separator c then String.[] ∷ rest else push c rest

unfoldable pub concat : String → String → String
concat String.[] t = t
concat (String.◌∷◌ c s) t = String.◌∷◌ c (concat s t)

abbrev pub dashed : String → String → String
dashed s t = concat s (String.◌∷◌ "-" t)

-- `strings.Join(parts, "-")`
unfoldable pub join : List String → String
join [] = String.[]
join (part ∷ []) = part
join (part ∷ next ∷ rest) = dashed part (join (next ∷ rest))

unfoldable pub deployment_name_for_pod : String → String
deployment_name_for_pod pod_name =
    let parts = split is_dash pod_name in
    if leb (length parts) 2 then pod_name else join (take (length parts - 2) parts)

length-push :
    (c : Char) (parts : List String) → 1 ≤ length parts → length (push c parts) ≡ length parts
unfolding push
length-push c [] h = absurd (omega arith)
length-push c (part ∷ rest) h = refl

length-split : (is_separator : Char → Bool) (s : String) → 1 ≤ length (split is_separator s)
unfolding split
length-split is_separator String.[] = omega arith
length-split is_separator (String.◌∷◌ c s) =
    ground (arith, length-split is_separator s, length-push c (split is_separator s))

push-append : (c : Char) (xs ys : List String) → 1 ≤ length xs → push c (xs ++ ys) ≡ push c xs ++ ys
unfolding push
push-append c [] ys h = absurd (omega arith)
push-append c (x ∷ xs) ys h = refl

-- A separator separates parts.
pub split-concat :
    (is_separator : Char → Bool) (c : Char) (s t : String)
    → is_separator c ≡ true
    → split is_separator (concat s (String.◌∷◌ c t)) ≡ split is_separator s ++ split is_separator t
unfolding split concat
split-concat is_separator c String.[] t h = ground arith
split-concat is_separator c (String.◌∷◌ d s) t h = ground (
  arith,
  split-concat is_separator c s t,
  push-append d (split is_separator s) (split is_separator t) (length-split is_separator s),
)

abbrev pub has_none : (Char → Bool) → String → Bool
has_none is_separator String.[] = true
has_none is_separator (String.◌∷◌ c s) = not (is_separator c) && has_none is_separator s

pub split-has_none :
    (is_separator : Char → Bool) (s : String)
    → has_none is_separator s ≡ true
    → split is_separator s ≡ s ∷ []
unfolding split push
split-has_none is_separator String.[] h = refl
split-has_none is_separator (String.◌∷◌ c s) h = ground (arith, split-has_none is_separator s)

split-dashed : (s t : String) → split is_dash (dashed s t) ≡ split is_dash s ++ split is_dash t
split-dashed s t = split-concat is_dash "-" s t refl

join-push :
    (c : Char) (parts : List String)
    → 1 ≤ length parts
    → join (push c parts) ≡ String.◌∷◌ c (join parts)
unfolding join push concat
join-push c [] h = absurd (omega arith)
join-push c (part ∷ []) h = refl
join-push c (part ∷ next ∷ rest) h = refl

join-dash :
    (parts : List String)
    → 1 ≤ length parts
    → join (String.[] ∷ parts) ≡ String.◌∷◌ "-" (join parts)
unfolding join concat
join-dash [] h = absurd (omega arith)
join-dash (part ∷ rest) h = refl

join-split : (s : String) → join (split is_dash s) ≡ s
unfolding split
join-split String.[] = unfold join in refl
join-split (String.◌∷◌ c s) = elim (Bool-cases (is_dash c)) [
  | inl dash ↦
      let same : "-" ≡ c = Char-path "-" c (ground arith) in
      rw dash (join-dash (split is_dash s) (length-split is_dash s) ∙ cc (same, join-split s))
  | inr other ↦
      rw other
        (join-push c (split is_dash s) (length-split is_dash s) ∙ ap (String.◌∷◌ c) (join-split s))
]

-- A pod of a Deployment is named after it, with the hash of its ReplicaSet and a suffix of its own,
-- neither of which has a dash: its name gives back the Deployment's, dashes included.
pub deployment_name_for_pod-dashed :
    (deployment hash suffix : String)
    → has_none is_dash hash ≡ true
    → has_none is_dash suffix ≡ true
    → deployment_name_for_pod (dashed deployment (dashed hash suffix)) ≡ deployment
unfolding deployment_name_for_pod
deployment_name_for_pod-dashed deployment hash suffix h k =
    let parts : split is_dash (dashed deployment (dashed hash suffix))
        ≡ split is_dash deployment ++ hash ∷ suffix ∷ [] =
      split-dashed deployment (dashed hash suffix)
      ∙ rw
          (split-dashed hash suffix, split-has_none is_dash hash h, split-has_none is_dash suffix k)
          refl in
    let length_parts : length (split is_dash deployment ++ hash ∷ suffix ∷ [])
        ≡ length (split is_dash deployment) + 2 =
      omega (arith, length-append (split is_dash deployment) (hash ∷ suffix ∷ [])) in
    let taken : length (split is_dash deployment) + 2 - 2 ≡ length (split is_dash deployment) =
      omega arith in
    rw
      (
        parts,
        length_parts,
        taken,
        (split-append _ (split is_dash deployment) (hash ∷ suffix ∷ []) refl).0,
      )
      (ground (arith, join-split deployment, length-split is_dash deployment))
