-- ===== src/Translation/Content/Laws.antt =====
-- Reading a content after a write and after `_normalize_content`.
use truyenaudio_studio.Prelude.{
  ◌≡◌, refl, sym, ap, ◌∙◌, subst, Bool, true, false, ◌&&◌, none, some, [], ◌∷◌, if◌then◌else◌,
  coalesce, arith, Bool-cases, inl, inr, not,
}
use truyenaudio_studio.Translation.Text.{Text, is_space, has_text, is_empty}
use truyenaudio_studio.Translation.Normalize.{rstrip}
use truyenaudio_studio.Translation.Content.{
  text_eq, lstrip, strip, Entry, Content, get, put, ok, normalize_from,
}

pub text_eq_refl : (t : Text) → text_eq t t ≡ true
text_eq_refl [] = refl
text_eq_refl (c ∷ cs) = ground (arith, text_eq_refl cs)

pub text_eq→≡ : (s t : Text) → text_eq s t ≡ true → s ≡ t
text_eq→≡ [] [] h = refl
text_eq→≡ [] (d ∷ ds) h = cc
text_eq→≡ (c ∷ cs) [] h = cc
text_eq→≡ (c ∷ cs) (d ∷ ds) h = ground (arith, h, text_eq→≡ cs ds (ground (arith, h)))

-- A write is read back, and other keys keep their values.
pub get-put : (key value : Text) (content : Content) → get key (put key value content) ≡ some value
unfolding get put
get-put key value [] = rw (text_eq_refl key) refl
get-put key value (e ∷ es) = elim (Bool-cases (text_eq e.segment_id key)) [
  | inl hit ↦ rw hit (rw hit refl)
  | inr miss ↦ rw miss (rw miss (get-put key value es))
]

pub get-put_other :
    (key other value : Text) (content : Content)
    → text_eq other key ≡ false
    → get key (put other value content) ≡ get key content
unfolding get put
get-put_other key other value [] h = rw h refl
get-put_other key other value (e ∷ es) h = elim (Bool-cases (text_eq e.segment_id other)) [
  | inl hit ↦
      let off = ap (λ t. text_eq t key) (text_eq→≡ e.segment_id other hit) ∙ h in
      rw hit (rw off refl)
  | inr miss ↦ rw miss (
      ap (λ r. if text_eq e.segment_id key then some e.text else r)
        (get-put_other key other value es h))
]

text_eq_comm : (s t : Text) → text_eq s t ≡ text_eq t s
text_eq_comm [] [] = refl
text_eq_comm [] (d ∷ ds) = refl
text_eq_comm (c ∷ cs) [] = refl
text_eq_comm (c ∷ cs) (d ∷ ds) = ground (arith, text_eq_comm cs ds)

abbrev pub IsStripped : Text → Type 0
IsStripped t = strip t ≡ t

-- Every key is stripped, and no two entries have the same key.
abbrev pub IsDict : Content → Type 0
IsDict [] = Unit
IsDict (e ∷ es) = IsStripped e.segment_id × (get e.segment_id es ≡ none) × IsDict es

starts_visible : Text → Bool
starts_visible [] = true
starts_visible (c ∷ cs) = not (is_space c)

lstrip-visible : (t : Text) → starts_visible (lstrip t) ≡ true
unfolding lstrip starts_visible
lstrip-visible [] = refl
lstrip-visible (c ∷ cs) = elim (Bool-cases (is_space c)) [
  | inl space ↦ rw space (lstrip-visible cs)
  | inr other ↦ rw other (ground (arith, other))
]

visible-lstrip : (t : Text) → starts_visible t ≡ true → lstrip t ≡ t
unfolding lstrip starts_visible
visible-lstrip [] h = refl
visible-lstrip (c ∷ cs) h =
    let no_space : is_space c ≡ false = ground (arith, h) in rw no_space refl

visible-rstrip : (t : Text) → starts_visible t ≡ true → starts_visible (rstrip t) ≡ true
unfolding rstrip starts_visible
visible-rstrip [] h = refl
visible-rstrip (c ∷ cs) h = ground (arith, h)

rstrip-rstrip : (t : Text) → rstrip (rstrip t) ≡ rstrip t
unfolding rstrip
rstrip-rstrip [] = refl
rstrip-rstrip (c ∷ cs) = elim (Bool-cases (is_empty (rstrip cs) && is_space c)) [
  | inl dropped ↦ rw dropped refl
  | inr kept ↦ rw kept rw (rstrip-rstrip cs) (rw kept refl)
]

pub strip-IsStripped : (t : Text) → IsStripped (strip t)
strip-IsStripped t =
    ap rstrip (visible-lstrip (strip t) (visible-rstrip (lstrip t) (lstrip-visible t)))
    ∙ rstrip-rstrip (lstrip t)

pub put-IsDict :
    (key value : Text) (content : Content)
    → IsStripped key
    → IsDict content
    → IsDict (put key value content)
unfolding get put
put-IsDict key value [] h d = (h, refl, tt)
put-IsDict key value (e ∷ es) h (he, fresh, d) = elim (Bool-cases (text_eq e.segment_id key)) [
  | inl hit ↦ rw hit (he, fresh, d)
  | inr miss ↦ rw miss (
    he,
    get-put_other e.segment_id key value es (text_eq_comm key e.segment_id ∙ miss) ∙ fresh,
    put-IsDict key value es h d,
  )
]

pub normalize_from-IsDict :
    (normalized content : Content) {result : Content}
    → IsDict normalized
    → normalize_from normalized content ≡ ok result
    → IsDict result
unfolding normalize_from
normalize_from-IsDict normalized [] d h = subst IsDict (ground (arith, h)) d
normalize_from-IsDict normalized (e ∷ es) {result} d h = elim (Bool-cases (has_text e.segment_id)) [
  | inl has ↦
      normalize_from-IsDict (put (strip e.segment_id) e.text normalized) es {result = result}
        (put-IsDict (strip e.segment_id) e.text normalized (strip-IsStripped e.segment_id) d)
        (ground (arith, h, has))
  | inr blank ↦ absurd (ground (arith, h, blank))
]

get-written :
    (key : Text) (normalized : Content) (e : Entry) (es : Content)
    → IsStripped e.segment_id
    → get e.segment_id es ≡ none
    → coalesce (get key es) (get key (put (strip e.segment_id) e.text normalized))
      ≡ coalesce (get key (e ∷ es)) (get key normalized)
unfolding get
get-written key normalized e es he fresh =
    ap (λ k. coalesce (get key es) (get key (put k e.text normalized))) he
    ∙ elim (Bool-cases (text_eq e.segment_id key)) [
      | inl hit ↦
          let same = text_eq→≡ e.segment_id key hit in
          rw hit (
            ap (λ o. coalesce o (get key (put e.segment_id e.text normalized)))
              (ap (λ k. get k es) (sym same) ∙ fresh)
            ∙ ap (λ k. get key (put k e.text normalized)) same
            ∙ get-put key e.text normalized)
      | inr miss ↦
          rw miss
            (ap (coalesce (get key es)) (get-put_other key e.segment_id e.text normalized miss))
    ]

-- Normalizing a dict keeps the value of each key.
pub get-normalize_from :
    (key : Text) (normalized content : Content) {result : Content}
    → IsDict content
    → normalize_from normalized content ≡ ok result
    → get key result ≡ coalesce (get key content) (get key normalized)
unfolding normalize_from get
get-normalize_from key normalized [] d h = sym (ap (get key) (ground (arith, h)))
get-normalize_from key normalized (e ∷ es) {result} (he, fresh, d) h =
    elim (Bool-cases (has_text e.segment_id)) [
      | inl has ↦
          let written = put (strip e.segment_id) e.text normalized in
          let rest =
            get-normalize_from key written es {result = result} d (ground (arith, h, has)) in
          rest ∙ get-written key normalized e es he fresh
      | inr blank ↦ absurd (ground (arith, h, blank))
    ]
