-- ===== src/Archive/Rollback.antt =====
-- That a rollback which reports no error brings back what was there.
use stmanager.Prelude.{
  Text, Bool, true, false, ◌≡◌, ◌≢◌, refl, sym, ap, ◌∙◌, Option, none, ◌&&◌, Bool-cases, inl, inr,
  ◌⊎◌,
}
use stmanager.Status.{Status, Result, ok, err, looping, threw, Exec}
use stmanager.Server.Requests.{settle}
use stmanager.Archive.Targets.{
  Tree, Paths, first_error, captured, only_if, take_back, paths_of, rollback_restore_targets,
}
use stmanager.Archive.Places.{
  Place, old_data, old_extensions, backup_data, backup_extensions, path_of, is_some, IsAtomic,
}

module _ (t : Tree) where
  -- A chain of captured calls is ok only if each of them is.
  captured_ok :
      (call rest : Exec t.State (Unit {0})) (s : t.State)
      → (captured t call rest s).0 ≡ ok tt
      → ((call s).0 ≡ ok tt) × (captured t call rest s ≡ rest (call s).1)
  captured_ok call rest s h = go (call s).0 refl h
    where
      kept : (e : Status) (r : Result (Unit {0})) → first_error e r ≢ ok tt
      kept e (ok u) = λ h. cc
      kept e (err f) = λ h. cc
      kept e looping = λ h. cc
      kept e (threw w) = λ h. cc

      go :
          (r : Result (Unit {0}))
          → (call s).0 ≡ r
          → (settle r
              (λ e u. let (r', u') = rest u in (first_error e r', u'))
              (λ _. rest)
              (call s).1).0
            ≡ ok tt
          → ((call s).0 ≡ ok tt) × (captured t call rest s ≡ rest (call s).1)
      go (ok done) e k = (e, rw e refl)
      go (err f) e k = absurd (kept f (rest (call s).1).0 k)
      go looping e k = cc
      go (threw w) e k = cc

module _ (t : Tree) (stage_root destination_root : Text)
    (h : IsAtomic t stage_root destination_root) where
  abbrev pub at : Place → Text
  at = path_of t stage_root destination_root

  abbrev pub Same : Place → t.State → t.State → Type 0
  Same o s s' = h.slot s' o ≡ h.slot s o

  removed_if :
      (b : Bool) (p : Place) (s : t.State)
      → (only_if t b (t.remove (at p)) s).0 ≡ ok tt
      → (b ≡ true → h.slot (only_if t b (t.remove (at p)) s).1 p ≡ none)
        × (b ≡ false → Same p s (only_if t b (t.remove (at p)) s).1)
        × ((o : Place) → o ≢ p → Same o s (only_if t b (t.remove (at p)) s).1)
  removed_if true p s e = (λ x. (h.remove-ok p s e).0, λ x. cc, (h.remove-ok p s e).1)
  removed_if false p s e = (λ x. cc, λ x. refl, λ o n. refl)

  taken_if :
      (b : Bool) (p q : Place) (s : t.State)
      → p ≢ q
      → (only_if t b (t.move_or_copy (at p) (at q)) s).0 ≡ ok tt
      → let s' = (only_if t b (t.move_or_copy (at p) (at q)) s).1 in
        (b ≡ true → (h.slot s q ≡ none) × (h.slot s' q ≡ h.slot s p))
        × (b ≡ false → Same q s s')
        × ((o : Place) → o ≢ p → o ≢ q → Same o s s')
  taken_if true p q s n e =
      let (free, to, left, others) = h.move-ok p q s n e in (λ x. (free, to), λ x. cc, others)
  taken_if false p q s n e = (λ x. cc, λ x. refl, λ o a b. refl)

  -- Where the former content `orig` of a place is when a rollback begins: at its backup; nowhere,
  -- as there was none; or still at its place. In the first two cases the place is free unless
  -- something was installed there.
  pub data Owed (had installed : Bool) (home backup : Place) (u : t.State) (orig : Option h.Content)
      : Type 0 where
    away :
        had ≡ true
        → h.slot u backup ≡ orig
        → is_some orig ≡ true
        → (installed ≡ false → h.slot u home ≡ none)
        → Owed had installed home backup u orig
    absent :
        had ≡ false
        → orig ≡ none
        → (installed ≡ false → h.slot u home ≡ none)
        → Owed had installed home backup u orig
    untouched :
        installed ≡ false
        → h.slot u home ≡ orig
        → is_some orig ≡ true
        → Owed had installed home backup u orig

  module _ (had installed : Bool) (home backup : Place) (orig : Option h.Content) where
    -- From `u` by the removal to `v`, and from there by taking back to `w`.
    settled_home :
        (u v w : t.State)
        → Owed had installed home backup u orig
        → (installed ≡ true → h.slot v home ≡ none)
        → (installed ≡ false → Same home u v)
        → Same backup u v
        → (had && is_some (h.slot v backup) ≡ true
            → (h.slot v home ≡ none) × (h.slot w home ≡ h.slot v backup))
        → (had && is_some (h.slot v backup) ≡ false → Same home v w)
        → h.slot w home ≡ orig
    settled_home u v w (away a b c d) r k s m n = (m both).1 ∙ s ∙ b
      where
        both : had && is_some (h.slot v backup) ≡ true
        both = rw a (rw s (rw b c))
    settled_home u v w (absent a b c) r k s m n = n none_had ∙ gone (Bool-cases installed) ∙ sym b
      where
        none_had : had && is_some (h.slot v backup) ≡ false
        none_had = rw a refl

        gone : ((installed ≡ true) ⊎ (installed ≡ false)) → h.slot v home ≡ none
        gone (inl x) = r x
        gone (inr x) = k x ∙ c x
    settled_home u v w (untouched a b c) r k s m n =
        elim (Bool-cases (had && is_some (h.slot v backup))) [
          | inl x ↦ absurd (impossible (sym ((m x).0) ∙ k a ∙ b))
          | inr x ↦ n x ∙ k a ∙ b
        ]
      where
        impossible : none ≡ orig → ⊥
        impossible e = absurd (unlike (ap is_some e ∙ c))
          where
            unlike : is_some {A = h.Content} none ≡ true → ⊥
            unlike e = cc

  abbrev pub places : Paths
  places = paths_of t stage_root destination_root

  test_slot :
      (had : Bool) (backup : Place) (v : t.State)
      → (had && t.exists (at backup) v) ≡ (had && is_some (h.slot v backup))
  test_slot had backup v = ap (λ (b : Bool). had && b) (h.exists-slot backup v)

  module _ (had_data had_extensions installed_data installed_extensions : Bool) (u : t.State) where
    abbrev u1 : t.State
    u1 = (only_if t installed_data (t.remove (at old_data)) u).1

    abbrev u2 : t.State
    u2 = (only_if t installed_extensions (t.remove (at old_extensions)) u1).1

    abbrev u3 : t.State
    u3 = (take_back t had_data (at backup_data) (at old_data) u2).1

    abbrev u4 : t.State
    u4 = (take_back t had_extensions (at backup_extensions) (at old_extensions) u3).1

    abbrev rolled : Result (Unit {0}) × t.State
    rolled =
        rollback_restore_targets t places had_data had_extensions installed_data
          installed_extensions u

    rolled_ok :
        rolled.0 ≡ ok tt
        → ((only_if t installed_data (t.remove (at old_data)) u).0 ≡ ok tt)
          × ((only_if t installed_extensions (t.remove (at old_extensions)) u1).0 ≡ ok tt)
          × ((take_back t had_data (at backup_data) (at old_data) u2).0 ≡ ok tt)
          × ((take_back t had_extensions (at backup_extensions) (at old_extensions) u3).0 ≡ ok tt)
          × (rolled.1 ≡ u4)
    unfolding rollback_restore_targets
    rolled_ok e =
        let (a, r1) = captured_ok t (only_if t installed_data (t.remove (at old_data))) _ u e in
        let (b, r2) =
          captured_ok t (only_if t installed_extensions (t.remove (at old_extensions))) _ u1
            (sym (ap (λ x. x.0) r1) ∙ e) in
        let (c, r3) =
          captured_ok t (take_back t had_data (at backup_data) (at old_data)) _ u2
            (sym (ap (λ x. x.0) r2) ∙ sym (ap (λ x. x.0) r1) ∙ e) in
        (
          a,
          b,
          c,
          sym (ap (λ x. x.0) r3) ∙ sym (ap (λ x. x.0) r2) ∙ sym (ap (λ x. x.0) r1) ∙ e,
          ap (λ x. x.1) r1 ∙ ap (λ x. x.1) r2 ∙ ap (λ x. x.1) r3,
        )

    -- A rollback that reports no error brings back what was at both places.
    pub rollback-Owed :
        (former_data former_extensions : Option h.Content)
        → Owed had_data installed_data old_data backup_data u former_data
        → Owed had_extensions installed_extensions old_extensions backup_extensions u
            former_extensions
        → rolled.0 ≡ ok tt
        → (h.slot rolled.1 old_data ≡ former_data)
          × (h.slot rolled.1 old_extensions ≡ former_extensions)
    rollback-Owed former_data former_extensions owed_data owed_extensions e =
        let (a, b, c, d, end) = rolled_ok e in
        let (a1, a2, a3) = removed_if installed_data old_data u a in
        let (b1, b2, b3) = removed_if installed_extensions old_extensions u1 b in
        let (c1, c2, c3) =
          taken_if (had_data && t.exists (at backup_data) u2) backup_data old_data u2 (λ x. cc) c in
        let (d1, d2, d3) =
          taken_if (had_extensions && t.exists (at backup_extensions) u3) backup_extensions
            old_extensions u3 (λ x. cc) d in
        (
          ap (λ (x : t.State). h.slot x old_data) end
              ∙ d3 old_data (λ x. cc) (λ x. cc)
              ∙ settled_home had_data installed_data old_data backup_data former_data u u2 u3
                  owed_data (λ x. b3 old_data (λ y. cc) ∙ a1 x) (λ x. b3 old_data (λ y. cc) ∙ a2 x)
                  (b3 backup_data (λ y. cc) ∙ a3 backup_data (λ y. cc))
                  (λ x. c1 (test_slot had_data backup_data u2 ∙ x))
                  (λ x. c2 (test_slot had_data backup_data u2 ∙ x)),
          ap (λ (x : t.State). h.slot x old_extensions) end
              ∙ settled_home had_extensions installed_extensions old_extensions backup_extensions
                  former_extensions u u3 u4 owed_extensions
                  (λ x. c3 old_extensions (λ y. cc) (λ y. cc) ∙ b1 x)
                  (λ x. c3 old_extensions (λ y. cc) (λ y. cc) ∙ b2 x ∙ a3 old_extensions (λ y. cc))
                  (c3 backup_extensions (λ y. cc) (λ y. cc)
                    ∙ b3 backup_extensions (λ y. cc)
                    ∙ a3 backup_extensions (λ y. cc))
                  (λ x. d1 (test_slot had_extensions backup_extensions u3 ∙ x))
                  (λ x. d2 (test_slot had_extensions backup_extensions u3 ∙ x)),
        )
