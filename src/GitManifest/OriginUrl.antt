-- ===== src/GitManifest/OriginUrl.antt =====
-- Where the url of the manifest comes from.
use stmanager.GitManifest.Lines.{
  Framed, UrlLine, SectionLine, classify-UrlLine, classify-Origin, classify-SectionLine,
}
use stmanager.Prelude.{
  codes, sym, Text, Bool, true, false, some, List, [], ◌∷◌, ◌++◌, ◌≡◌, refl, ap, ◌∙◌, ◌⊎◌, inl, inr,
}
use stmanager.GitManifest.Config.{
  trim_copy, ConfigLine, ignored, section_start, url_setting, classify, parse_lines,
  parse_origin_url_from_git_config,
}

abbrev pub is_section : ConfigLine → Bool
is_section ignored = false
is_section (section_start b) = true
is_section (url_setting u) = false

-- None of these lines is one in brackets.
abbrev pub NoSection : List Text → Type 0
NoSection [] = Unit {0}
NoSection (line ∷ rest) = (SectionLine line → ⊥) × NoSection rest

section_found : (b : Bool) → is_section (section_start b) ≡ false → ⊥
section_found b e = cc

no_section : (line : Text) → is_section (classify (trim_copy line)) ≡ false → SectionLine line → ⊥
no_section line n l =
    let (b, e) = classify-SectionLine line l in section_found b (sym (ap is_section e) ∙ n)

-- A line that sets the url, with no section in front of it.
pub record Setting (lines : List Text) (url : Text) : Type 0 where
  pub middle : List Text
  pub line : Text
  pub after : List Text
  pub split : lines ≡ middle ++ line ∷ after
  pub no_section : NoSection middle
  pub sets : UrlLine line url

-- Such a line behind a line that begins the section of origin.
pub record InOrigin (lines : List Text) (url : Text) : Type 0 where
  pub before : List Text
  pub header : Text
  pub section : List Text
  pub split : lines ≡ before ++ header ∷ section
  pub is_origin : Framed header (codes "[remote \"origin\"]")
  pub setting : Setting section url

Setting-cons :
    (line : Text) {rest : List Text} {url : Text}
    → is_section (classify (trim_copy line)) ≡ false
    → Setting rest url
    → Setting (line ∷ rest) url
Setting-cons line n s = record {
  middle = line ∷ s.middle;
  line = s.line;
  after = s.after;
  split = ap (λ (l : List Text). line ∷ l) s.split;
  no_section = (no_section line n, s.no_section);
  sets = s.sets;
}

InOrigin-cons :
    (line : Text) {rest : List Text} {url : Text} → InOrigin rest url → InOrigin (line ∷ rest) url
InOrigin-cons line s = record {
  before = line ∷ s.before;
  header = s.header;
  section = s.section;
  split = ap (λ (l : List Text). line ∷ l) s.split;
  is_origin = s.is_origin;
  setting = s.setting;
}

abbrev Source : Bool → List Text → Text → Type 0
Source false lines url = InOrigin lines url
Source true lines url = Setting lines url ⊎ InOrigin lines url

from_origin :
    (was : Bool) (lines : List Text) (url : Text) → InOrigin lines url → Source was lines url
from_origin false lines url s = s
from_origin true lines url s = inr s

begin_section :
    (line : Text) (b : Bool) (rest : List Text) (url : Text)
    → classify (trim_copy line) ≡ section_start b
    → Source b rest url
    → InOrigin (line ∷ rest) url
begin_section line true rest url e (inl s) = record {
  before = [];
  header = line;
  section = rest;
  split = refl;
  is_origin = classify-Origin line e;
  setting = s;
}
begin_section line true rest url e (inr s) = InOrigin-cons line s
begin_section line false rest url e s = InOrigin-cons line s

pass_line :
    (line : Text) (rest : List Text) (url : Text) (was : Bool)
    → is_section (classify (trim_copy line)) ≡ false
    → Source was rest url
    → Source was (line ∷ rest) url
pass_line line rest url false n s = InOrigin-cons line s
pass_line line rest url true n (inl s) = inl (Setting-cons line n s)
pass_line line rest url true n (inr s) = inr (InOrigin-cons line s)

same_url : {x y : Text} → some x ≡ some y → x ≡ y
same_url e = cc

module _ (line : Text) (rest : List Text) (url : Text) where
  -- One round of the loop, by what the line is.
  round-Source :
      (c : ConfigLine) (was : Bool)
      → classify (trim_copy line) ≡ c
      → ((b : Bool) → parse_lines b rest ≡ some url → Source b rest url)
      → parse_lines was (line ∷ rest) ≡ some url
      → Source was (line ∷ rest) url
  unfolding parse_lines
  round-Source ignored was k rest_of e =
      pass_line line rest url was (rw k refl) (rest_of was (rw (k, parse_lines) at e))
  round-Source (section_start b) was k rest_of e =
      from_origin was (line ∷ rest) url
        (begin_section line b rest url k (rest_of b (rw (k, parse_lines) at e)))
  round-Source (url_setting u) false k rest_of e =
      pass_line line rest url false (rw k refl) (rest_of false (rw (k, parse_lines) at e))
  round-Source (url_setting u) true k rest_of e = inl (record {
    middle = [];
    line = line;
    after = rest;
    split = refl;
    no_section = tt;
    sets = classify-UrlLine line url (k ∙ ap url_setting (same_url (rw (k, parse_lines) at e)));
  })

parse_lines-Source :
    (was : Bool) (lines : List Text) (url : Text)
    → parse_lines was lines ≡ some url
    → Source was lines url
unfolding parse_lines
parse_lines-Source was [] url e = cc
parse_lines-Source was (line ∷ rest) url e =
    round-Source line rest url (classify (trim_copy line)) was refl
      (λ b. parse_lines-Source b rest url) e

-- A url that is found in a git configuration is that of its origin. It is not empty, and a line has
-- the word url, an `=` and the url, with blanks around each; in front of it stands a line
-- that has nothing but `[remote "origin"]` and blanks around it; and no line between the two is one
-- in brackets, the beginning of another section.
pub parse_origin_url_from_git_config-InOrigin :
    (lines : List Text) (url : Text)
    → parse_origin_url_from_git_config (some lines) ≡ some url
    → InOrigin lines url
unfolding parse_origin_url_from_git_config
parse_origin_url_from_git_config-InOrigin lines url e = parse_lines-Source false lines url e
