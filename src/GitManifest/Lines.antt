-- ===== src/GitManifest/Lines.antt =====
-- What the lines of a git configuration are, without the code of src/git_manifest.cpp, and that
-- its functions on one line find just that.
use stmanager.Prelude.{
  ℕ, ◌≤◌, Text, Bool, true, false, codes, is_empty, is_prefix, text_eq, text_eq_sound, last_elem?,
  Option, none, some, [], ◌∷◌, ◌++◌, ◌==◌, ◌≡◌, ◌⊎◌, inl, inr, refl, sym, ap, ◌∙◌, subst,
  append_assoc, arith, Bool-cases,
}
use stmanager.GitManifest.Config.{
  is_space, trim_left, trim_right, trim_copy, split_setting, ignored, section_start, url_setting,
  origin_section, setting_line, classify,
}

-- A space, or one of the control characters from the tab to the carriage return.
abbrev pub IsBlank : Text → Type 0
IsBlank [] = Unit {0}
IsBlank (c ∷ rest) = ((c ≡ 32) ⊎ ((9 ≤ c) × (c ≤ 13))) × IsBlank rest

-- The text is `core` with blanks around it.
pub record Framed (text core : Text) : Type 0 where
  pub left : Text
  pub right : Text
  pub left_blank : IsBlank left
  pub right_blank : IsBlank right
  pub split : text ≡ left ++ (core ++ right)

-- A line `url = ...`, with blanks anywhere but in the word, for a url that is not empty.
pub record UrlLine (line url : Text) : Type 0 where
  pub key : Text
  pub value : Text
  pub setting : Framed line (key ++ b'=' ∷ value)
  pub key_is_url : Framed key (codes "url")
  pub value_is_url : Framed value url
  pub url_given : is_empty url ≡ false

-- A line in brackets begins a section.
pub record SectionLine (line : Text) : Type 0 where
  pub name : Text
  pub brackets : Framed line (b'[' ∷ (name ++ b']' ∷ []))

space-blank : (c : ℕ) → is_space c ≡ true → (c ≡ 32) ⊎ ((9 ≤ c) × (c ≤ 13))
space-blank c h = ground arith

blank-space : (c : ℕ) → (c ≡ 32) ⊎ ((9 ≤ c) × (c ≤ 13)) → is_space c ≡ true
blank-space c h = ground arith

abbrev LeftSplit : Text → Type 0
LeftSplit t = (a : Text) × IsBlank a × (t ≡ a ++ trim_left t)

trim_left-LeftSplit : (t : Text) → LeftSplit t
unfolding trim_left
trim_left-LeftSplit [] = ([], tt, refl)
trim_left-LeftSplit (c ∷ rest) = elim (Bool-cases (is_space c)) [
  | inl e ↦
      let (a, blank, split) = trim_left-LeftSplit rest in
      (c ∷ a, (space-blank c e, blank), rw e (ap (λ l. c ∷ l) split))
  | inr e ↦ ([], tt, rw e refl)
]

abbrev RightSplit : Text → Type 0
RightSplit t = (b : Text) × IsBlank b × (t ≡ trim_right t ++ b)

empty_text : (t : Text) → is_empty t ≡ true → t ≡ []
empty_text [] e = refl
empty_text (c ∷ t) e = cc

trim_right-RightSplit : (t : Text) → RightSplit t
unfolding trim_right
trim_right-RightSplit [] = ([], tt, refl)
trim_right-RightSplit (c ∷ rest) =
    let (b, blank, split) = trim_right-RightSplit rest in
    elim (Bool-cases (is_empty (trim_right rest))) [
      | inr e ↦ (b, blank, rw e (ap (λ l. c ∷ l) split))
      | inl e ↦ elim (Bool-cases (is_space c)) [
        | inr f ↦ (b, blank, rw (e, f) (ap (λ l. c ∷ l) split))
        | inl f ↦ (
          c ∷ b,
          (space-blank c f, blank),
          rw (e, f) (ap (λ l. c ∷ l) (split ∙ ap (λ l. l ++ b) (empty_text (trim_right rest) e))),
        )
      ]
    ]

pub trim_copy-Framed : (t : Text) → Framed t (trim_copy t)
unfolding trim_copy
trim_copy-Framed t =
    let (a, left, e) = trim_left-LeftSplit t in
    let (b, right, f) = trim_right-RightSplit (trim_left t) in
    record {
      left = a;
      right = b;
      left_blank = left;
      right_blank = right;
      split = e ∙ ap (λ l. a ++ l) f;
    }

trim_left_blank :
    (a rest : Text) (c : ℕ) → IsBlank a → is_space c ≡ false → trim_left (a ++ c ∷ rest) ≡ c ∷ rest
unfolding trim_left
trim_left_blank [] rest c blank e = rw e refl
trim_left_blank (d ∷ a) rest c blank e =
    rw (blank-space d blank.0) (trim_left_blank a rest c blank.1 e)

trim_right_nothing : (b : Text) → IsBlank b → trim_right b ≡ []
unfolding trim_right
trim_right_nothing [] blank = refl
trim_right_nothing (d ∷ b) blank =
    rw (trim_right_nothing b blank.1) (rw (blank-space d blank.0) refl)

trim_right_blank :
    (x b : Text) (c : ℕ) → IsBlank b → is_space c ≡ false → trim_right (x ++ c ∷ b) ≡ x ++ c ∷ []
unfolding trim_right
trim_right_blank [] b c blank e = rw (trim_right_nothing b blank) (rw e refl)
trim_right_blank (d ∷ []) b c blank e = rw (trim_right_blank [] b c blank e) refl
trim_right_blank (d ∷ y ∷ x) b c blank e = rw (trim_right_blank (y ∷ x) b c blank e) refl

same_pair :
    {a b c d : Text}
    → ◌≡◌ {A = Option (Text × Text)} (some (a, b)) (some (c, d))
    → (a ≡ c) × (b ≡ d)
same_pair e = (cc, cc)

split_setting-at :
    (t key value : Text) → split_setting t ≡ some (key, value) → t ≡ key ++ b'=' ∷ value
unfolding split_setting
split_setting-at [] key value h = cc
split_setting-at (c ∷ rest) key value h = elim (Bool-cases (c == b'=')) [
  | inl e ↦ ground (arith, e, h)
  | inr e ↦ later (split_setting-at rest) (split_setting rest) refl (rw (e, split_setting) at h)
]
  where
    later :
        ((k v : Text) → split_setting rest ≡ some (k, v) → rest ≡ k ++ b'=' ∷ v)
        → (o : Option (Text × Text)) → split_setting rest ≡ o
        → (elim o as (λ _. Option (Text × Text)) [ none ↦ none | some (k, v) ↦ some (c ∷ k, v) ])
          ≡ some (key, value)
        → c ∷ rest ≡ key ++ b'=' ∷ value
    later again none f g = cc
    later again (some (k, v)) f g =
        let (same_key, same_value) = same_pair g in
        ap (λ l. c ∷ l) (again k v f)
        ∙ (ap (λ l. l ++ b'=' ∷ v) same_key ∙ ap (λ l. key ++ b'=' ∷ l) same_value)

-- What is left of a setting that sets the url.
record IsUrl (o : Option (Text × Text)) (url : Text) : Type 0 where
  pub key : Text
  pub value : Text
  pub parts : o ≡ some (key, value)
  pub key_is_url : Framed key (codes "url")
  pub value_is_url : Framed value url
  pub url_given : is_empty url ≡ false

same_url : {x y : Text} → url_setting x ≡ url_setting y → x ≡ y
same_url e = cc

setting_line-IsUrl :
    (o : Option (Text × Text)) (url : Text) → setting_line o ≡ url_setting url → IsUrl o url
setting_line-IsUrl none url h = cc
setting_line-IsUrl (some (key, value)) url h =
    elim (Bool-cases (text_eq (trim_copy key) (codes "url"))) [
      | inr e ↦ absurd (ignored_not (rw e at h))
      | inl e ↦ elim (Bool-cases (is_empty (trim_copy value))) [
        | inl f ↦ absurd (ignored_not (rw (e, f) at h))
        | inr f ↦
            let same : trim_copy value ≡ url = same_url (rw (e, f) at h) in
            record {
              key = key;
              value = value;
              parts = refl;
              key_is_url =
                  subst (Framed key) (text_eq_sound (trim_copy key) (codes "url") e)
                    (trim_copy-Framed key);
              value_is_url = subst (Framed value) same (trim_copy-Framed value);
              url_given = ap is_empty (sym same) ∙ f;
            }
      ]
    ]
  where
    ignored_not : ignored ≡ url_setting url → ⊥
    ignored_not e = cc

classify-setting :
    (t url : Text) → classify t ≡ url_setting url → setting_line (split_setting t) ≡ url_setting url
unfolding classify
classify-setting t url h = ground arith

-- A line that the loop takes for one that sets the url.
pub classify-UrlLine :
    (line url : Text) → classify (trim_copy line) ≡ url_setting url → UrlLine line url
classify-UrlLine line url h =
    let u =
      setting_line-IsUrl (split_setting (trim_copy line)) url
        (classify-setting (trim_copy line) url h) in
    record {
      key = u.key;
      value = u.value;
      setting =
          subst (Framed line) (split_setting-at (trim_copy line) u.key u.value u.parts)
            (trim_copy-Framed line);
      key_is_url = u.key_is_url;
      value_is_url = u.value_is_url;
      url_given = u.url_given;
    }

classify-origin : (t : Text) → classify t ≡ section_start true → t ≡ origin_section
unfolding classify
classify-origin t h = ground (arith, text_eq_sound t origin_section)

-- A line that the loop takes for the beginning of the section of origin.
pub classify-Origin :
    (line : Text)
    → classify (trim_copy line) ≡ section_start true
    → Framed line (codes "[remote \"origin\"]")
classify-Origin line h =
    subst (Framed line) (classify-origin (trim_copy line) h) (trim_copy-Framed line)

last_of : (m : Text) (c : ℕ) → last_elem? (m ++ c ∷ []) ≡ some c
last_of [] c = refl
last_of (x ∷ []) c = refl
last_of (x ∷ y ∷ m) c = last_of (y ∷ m) c

SectionLine-trimmed :
    (line : Text) (l : SectionLine line) → trim_copy line ≡ b'[' ∷ (l.name ++ b']' ∷ [])
unfolding trim_copy
SectionLine-trimmed line l =
    let f = l.brackets in
    rw f.split (
      rw
        (trim_left_blank f.left ((l.name ++ b']' ∷ []) ++ f.right) b'[' f.left_blank (ground arith))
        (rw (append_assoc l.name (b']' ∷ []) f.right)
          (trim_right_blank (b'[' ∷ l.name) f.right b']' f.right_blank (ground arith))))

-- The loop takes every line in brackets for the beginning of a section.
pub classify-SectionLine :
    (line : Text) → SectionLine line → (b : Bool) × (classify (trim_copy line) ≡ section_start b)
unfolding classify codes is_prefix
classify-SectionLine line l = (
  text_eq (b'[' ∷ (l.name ++ b']' ∷ [])) origin_section,
  rw (SectionLine-trimmed line l) (rw (last_of (b'[' ∷ l.name) b']') refl),
)
