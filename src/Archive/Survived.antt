-- ===== src/Archive/Survived.antt =====
-- That a rollback loses nothing, also one that fails.
use stmanager.Prelude.{
  Text, Bool, true, false, ◌≡◌, ◌≢◌, refl, sym, ap, ◌∙◌, ◌⊎◌, inl, inr, Option, none, ◌&&◌, subst,
}
use stmanager.Status.{Status, Result, ok, err, looping, threw, Exec}
use stmanager.Server.Requests.{settle}
use stmanager.Client.Branches.{returns_status}
use stmanager.Archive.Targets.{
  Tree, first_error, captured, only_if, take_back, rollback_restore_targets,
}
use stmanager.Archive.Places.{
  Place, old_data, old_extensions, backup_data, backup_extensions, path_of, is_some, IsAtomic,
}
use stmanager.Archive.Rollback.{Owed, away, absent, untouched, Same, places}
use stmanager.Archive.Kept.{Owed-Keeps, move_or_copy-Keeps, remove-Keeps}

-- Chained calls return a status only if each does, and the state is that after all of them.
captured-returns :
    (t : Tree) (call rest : Exec t.State (Unit {0})) (s : t.State)
    → returns_status (captured t call rest s).0 ≡ true
    → (returns_status (call s).0 ≡ true)
      × (returns_status (rest (call s).1).0 ≡ true)
      × ((captured t call rest s).1 ≡ (rest (call s).1).1)
captured-returns t call rest s h = by_result (call s).0 refl h
  where
    carried :
        (e : Status) (r : Result (Unit {0}))
        → returns_status (first_error e r) ≡ true
        → returns_status r ≡ true
    carried e (ok u) k = refl
    carried e (err f) k = refl
    carried e looping k = k
    carried e (threw w) k = k

    by_result :
        (r : Result (Unit {0}))
        → (call s).0 ≡ r
        → returns_status
            (settle r
              (λ e u. let (r', u') = rest u in (first_error e r', u'))
              (λ _. rest)
              (call s).1).0
          ≡ true
        → (returns_status (call s).0 ≡ true)
          × (returns_status (rest (call s).1).0 ≡ true)
          × ((captured t call rest s).1 ≡ (rest (call s).1).1)
    by_result (ok done) e k = (ap returns_status e, k, rw e refl)
    by_result (err f) e k = (ap returns_status e, carried f (rest (call s).1).0 k, rw e refl)
    by_result looping e k = cc
    by_result (threw w) e k = cc

module _ (t : Tree) (stage_root destination_root : Text)
    (h : IsAtomic t stage_root destination_root) where
  abbrev place : Place → Text
  place = path_of t stage_root destination_root

  abbrev Still : Place → t.State → t.State → Type 0
  Still = Same t stage_root destination_root h

  -- What stood at a place before the restoration stands there, or at its backup.
  abbrev pub Survives : Place → Place → Option h.Content → t.State → Type 0
  Survives home backup orig s =
      is_some orig ≡ true → (h.slot s home ≡ orig) ⊎ (h.slot s backup ≡ orig)

  Survives-Still :
      {home backup : Place} {orig : Option h.Content} {u v : t.State}
      → Still home u v
      → Still backup u v
      → Survives home backup orig u
      → Survives home backup orig v
  Survives-Still k l x given = elim (x given) [ inl e ↦ inl (k ∙ e) | inr e ↦ inr (l ∙ e) ]

  removed_if-Still :
      (b : Bool) (p o : Place) (u : t.State)
      → o ≢ p
      → returns_status (only_if t b (t.remove (place p)) u).0 ≡ true
      → Still o u (only_if t b (t.remove (place p)) u).1
  removed_if-Still true p o u n r = remove-Keeps t stage_root destination_root h p o u n r
  removed_if-Still false p o u n r = refl

  taken_if-Still :
      (b : Bool) (p q o : Place) (u : t.State)
      → p ≢ q
      → o ≢ p
      → o ≢ q
      → returns_status (only_if t b (t.move_or_copy (place p) (place q)) u).0 ≡ true
      → Still o u (only_if t b (t.move_or_copy (place p) (place q)) u).1
  taken_if-Still true p q o u d n m r =
      move_or_copy-Keeps t stage_root destination_root h p q o u d n m r
  taken_if-Still false p q o u d n m r = refl

  -- A move from the backup home, whether it succeeds or fails.
  moved-Survives :
      (home backup : Place) (orig : Option h.Content) (u : t.State) (r : Result (Unit {0}))
      → backup ≢ home
      → (t.move_or_copy (place backup) (place home) u).0 ≡ r
      → returns_status r ≡ true
      → Survives home backup orig u
      → Survives home backup orig (t.move_or_copy (place backup) (place home) u).1
  moved-Survives home backup orig u (ok done) d e k x =
      let (free, to, left, others) = h.move-ok backup home u d e in
      λ given. elim (x given) [
        | inl f ↦ absurd (unlike (ap is_some (sym free ∙ f) ∙ given))
        | inr f ↦ inl (to ∙ f)
      ]
    where
      unlike : is_some {A = h.Content} none ≡ true → ⊥
      unlike e = cc
  moved-Survives home backup orig u (err f) d e k x =
      Survives-Still (h.move-failed backup home u f e home) (h.move-failed backup home u f e backup)
        x
  moved-Survives home backup orig u looping d e k x = cc
  moved-Survives home backup orig u (threw w) d e k x = cc

  taken_if-Survives :
      (b : Bool) (home backup : Place) (orig : Option h.Content) (u : t.State)
      → backup ≢ home
      → returns_status (only_if t b (t.move_or_copy (place backup) (place home)) u).0 ≡ true
      → Survives home backup orig u
      → Survives home backup orig (only_if t b (t.move_or_copy (place backup) (place home)) u).1
  taken_if-Survives true home backup orig u d r x =
      moved-Survives home backup orig u (t.move_or_copy (place backup) (place home) u).0 d refl r x
  taken_if-Survives false home backup orig u d r x = x

  -- The removal of what was installed, where something is owed.
  removed_if-Survives :
      {had : Bool} (installed : Bool) (home backup : Place) {orig : Option h.Content} (u : t.State)
      → backup ≢ home
      → returns_status (only_if t installed (t.remove (place home)) u).0 ≡ true
      → Owed t stage_root destination_root h had installed home backup u orig
      → Survives home backup orig (only_if t installed (t.remove (place home)) u).1
  removed_if-Survives installed home backup u d r (away a b c e) given =
      inr (removed_if-Still installed home backup u d r ∙ b)
  removed_if-Survives installed home backup u d r (absent a b c) given =
      absurd (unlike (ap is_some (sym b) ∙ given))
    where
      unlike : is_some {A = h.Content} none ≡ true → ⊥
      unlike e = cc
  removed_if-Survives installed home backup u d r (untouched a b c) given = rw a (inl b)

  module _ (had_data had_extensions installed_data installed_extensions : Bool) (u : t.State) where
    abbrev u1 : t.State
    u1 = (only_if t installed_data (t.remove (place old_data)) u).1

    abbrev u2 : t.State
    u2 = (only_if t installed_extensions (t.remove (place old_extensions)) u1).1

    abbrev u3 : t.State
    u3 = (take_back t had_data (place backup_data) (place old_data) u2).1

    abbrev rolled : Result (Unit {0}) × t.State
    rolled =
        rollback_restore_targets t (places t stage_root destination_root h) had_data had_extensions
          installed_data installed_extensions u

    -- After a rollback that returns a status, be it ok or an error, what was owed stands at its
    -- place or at its backup.
    pub rollback-Survives :
        (former_data former_extensions : Option h.Content)
        → Owed t stage_root destination_root h had_data installed_data old_data backup_data u
            former_data
        → Owed t stage_root destination_root h had_extensions installed_extensions old_extensions
            backup_extensions u former_extensions
        → returns_status rolled.0 ≡ true
        → Survives old_data backup_data former_data rolled.1
          × Survives old_extensions backup_extensions former_extensions rolled.1
    unfolding rollback_restore_targets
    rollback-Survives former_data former_extensions owed_data owed_extensions r =
        let (a, r1, e1) =
          captured-returns t (only_if t installed_data (t.remove (place old_data))) _ u r in
        let (b, r2, e2) =
          captured-returns t (only_if t installed_extensions (t.remove (place old_extensions))) _ u1
            r1 in
        let (c, d, e3) =
          captured-returns t (take_back t had_data (place backup_data) (place old_data)) _ u2 r2 in
        let end = e1 ∙ e2 ∙ e3 in
        let test = λ (s : t.State). had_data && t.exists (place backup_data) s in
        let test' = λ (s : t.State). had_extensions && t.exists (place backup_extensions) s in
        let data1 =
          removed_if-Survives installed_data old_data backup_data u (λ y. cc) a owed_data in
        let k = λ (o : Place) (n : o ≢ old_extensions).
          removed_if-Still installed_extensions old_extensions o u1 n b in
        let l =
          λ (o : Place) (n : o ≢ old_data). removed_if-Still installed_data old_data o u n a in
        let owed' =
          Owed-Keeps u1 (l old_extensions (λ y. cc)) (l backup_extensions (λ y. cc))
            owed_extensions in
        let data3 =
          taken_if-Survives (test u2) old_data backup_data former_data u2 (λ y. cc) c
            (Survives-Still (k old_data (λ y. cc)) (k backup_data (λ y. cc)) data1) in
        let m = λ (o : Place) (n : o ≢ backup_data) (n' : o ≢ old_data).
          taken_if-Still (test u2) backup_data old_data o u2 (λ y. cc) n n' c in
        let extensions2 =
          removed_if-Survives installed_extensions old_extensions backup_extensions u1 (λ y. cc) b
            owed' in
        let m' = λ (o : Place) (n : o ≢ backup_extensions) (n' : o ≢ old_extensions).
          taken_if-Still (test' u3) backup_extensions old_extensions o u3 (λ y. cc) n n' d in
        (
          subst (Survives old_data backup_data former_data) (sym end) (
              Survives-Still (m' old_data (λ y. cc) (λ y. cc)) (m' backup_data (λ y. cc) (λ y. cc))
                data3),
          subst (Survives old_extensions backup_extensions former_extensions) (sym end) (
              taken_if-Survives (test' u3) old_extensions backup_extensions former_extensions u3
                (λ y. cc) d
                (Survives-Still (m old_extensions (λ y. cc) (λ y. cc))
                  (m backup_extensions (λ y. cc) (λ y. cc)) extensions2)),
        )
