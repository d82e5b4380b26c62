-- ===== src/Archive/Kept.antt =====
-- What the steps of a restoration leave in their places.
use stmanager.Prelude.{
  Text, Bool, true, false, ◌≡◌, ◌≢◌, refl, sym, ap, ◌∙◌, Option, none, some, ◌&&◌,
}
use stmanager.Status.{Result, ok, err, looping, threw}
use stmanager.Client.Branches.{returns_status, settle-holds, done_choice-holds}
use stmanager.Archive.Targets.{Tree, restore_git_manifest}
use stmanager.Archive.Places.{Place, manifest, staged_manifest, is_some, IsAtomic, path_of}
use stmanager.Archive.Rollback.{Owed, away, absent, untouched, Same}

none_unless_some : {A : Type 0} (o : Option A) → is_some o ≡ false → o ≡ none
none_unless_some none e = refl
none_unless_some (some a) e = cc

module _ {t : Tree} {stage_root destination_root : Text}
    {h : IsAtomic t stage_root destination_root} where
  pub Owed-Keeps :
      {had installed : Bool} {home backup : Place} {u : t.State} {orig : Option h.Content}
      (u' : t.State)
      → Same t stage_root destination_root h home u u'
      → Same t stage_root destination_root h backup u u'
      → Owed t stage_root destination_root h had installed home backup u orig
      → Owed t stage_root destination_root h had installed home backup u' orig
  Owed-Keeps u' k l (away a b c d) = away a (l ∙ b) c (λ x. k ∙ d x)
  Owed-Keeps u' k l (absent a b c) = absent a b (λ x. k ∙ c x)
  Owed-Keeps u' k l (untouched a b c) = untouched a (k ∙ b) c

  -- After a move to `home` that succeeded, what is owed to it is owed with it installed.
  pub Owed-installed :
      {had : Bool} {home backup : Place} {u : t.State} {orig : Option h.Content} (u' : t.State)
      → h.slot u home ≡ none
      → Same t stage_root destination_root h backup u u'
      → Owed t stage_root destination_root h had false home backup u orig
      → Owed t stage_root destination_root h had true home backup u' orig
  Owed-installed u' free k (away a b c d) = away a (k ∙ b) c (λ x. cc)
  Owed-installed u' free k (absent a b c) = absent a b (λ x. cc)
  Owed-installed {orig = orig} u' free k (untouched a b c) =
      absurd (unlike (ap is_some (sym free ∙ b) ∙ c))
    where
      unlike : is_some {A = h.Content} none ≡ true → ⊥
      unlike e = cc

  -- Nothing was there: nothing is owed.
  pub Owed-nothing :
      {had : Bool} {home backup : Place} (u : t.State) (orig : Option h.Content)
      → had ≡ false
      → had ≡ is_some orig
      → h.slot u home ≡ orig
      → Owed t stage_root destination_root h had false home backup u orig
  Owed-nothing u orig e f g =
      let empty = none_unless_some orig (sym f ∙ e) in absent e empty (λ x. g ∙ empty)

module _ (t : Tree) (stage_root destination_root : Text)
    (h : IsAtomic t stage_root destination_root) where
  abbrev Kept : Place → t.State → t.State → Type 0
  Kept = Same t stage_root destination_root h

  abbrev place : Place → Text
  place = path_of t stage_root destination_root

  pub move_or_copy-Keeps :
      (p q o : Place) (u : t.State)
      → p ≢ q
      → o ≢ p
      → o ≢ q
      → returns_status (t.move_or_copy (place p) (place q) u).0 ≡ true
      → Kept o u (t.move_or_copy (place p) (place q) u).1
  move_or_copy-Keeps p q o u d n m = by_result (t.move_or_copy (place p) (place q) u).0 refl
    where
      by_result :
          (r : Result (Unit {0}))
          → (t.move_or_copy (place p) (place q) u).0 ≡ r
          → returns_status (t.move_or_copy (place p) (place q) u).0 ≡ true
          → Kept o u (t.move_or_copy (place p) (place q) u).1
      by_result (ok done) e k = (h.move-ok p q u d e).3 o n m
      by_result (err f) e k = h.move-failed p q u f e o
      by_result looping e k = cc
      by_result (threw w) e k = cc

  pub remove-Keeps :
      (p o : Place) (u : t.State)
      → o ≢ p
      → returns_status (t.remove (place p) u).0 ≡ true
      → Kept o u (t.remove (place p) u).1
  remove-Keeps p o u n = by_result (t.remove (place p) u).0 refl
    where
      by_result :
          (r : Result (Unit {0}))
          → (t.remove (place p) u).0 ≡ r
          → returns_status (t.remove (place p) u).0 ≡ true
          → Kept o u (t.remove (place p) u).1
      by_result (ok done) e k = (h.remove-ok p u e).1 o n
      by_result (err f) e k = h.remove-failed p u f e o n
      by_result looping e k = cc
      by_result (threw w) e k = cc

  -- The manifest's restoration leaves the other places alone.
  pub restore_git_manifest-Keeps :
      (o : Place) (u : t.State)
      → o ≢ manifest
      → o ≢ staged_manifest
      → returns_status (restore_git_manifest t stage_root destination_root u).0 ≡ true
      → Kept o u (restore_git_manifest t stage_root destination_root u).1
  unfolding restore_git_manifest
  restore_git_manifest-Keeps o u n m =
      let Q : Result (Unit {0}) × t.State → Type 0 =
        λ x. returns_status x.0 ≡ true → Kept o u x.1 in
      done_choice-holds Q
        (t.exists (place staged_manifest) u && t.is_directory (place staged_manifest) u) _ _
        (λ e k. refl)
        (λ e.
          done_choice-holds Q (t.exists (place staged_manifest) u) _ _
            (λ e'.
              done_choice-holds Q (t.exists (place manifest) u) _ _
                (λ there.
                  let x = t.remove (place manifest) u in
                  settle-holds Q x.0 _ _ x.1 (λ k. cc) (λ w k. cc)
                    (λ f g k. remove-Keeps manifest o u n (ap returns_status g))
                    (λ a g k.
                      move_or_copy-Keeps staged_manifest manifest o x.1 (λ y. cc) m n k
                      ∙ remove-Keeps manifest o u n (ap returns_status g)))
                (λ not_there k. move_or_copy-Keeps staged_manifest manifest o u (λ y. cc) m n k))
            (λ e'.
              done_choice-holds Q (t.exists (place manifest) u) _ _
                (λ there k. remove-Keeps manifest o u n k) (λ not_there k. refl)))
