-- ===== src/Sha256/Digest.antt =====
-- `update`, in calls of any sizes, followed by `final` computes the hash of the padded message.
use mathlib.Core.List.{foldl}
use native.Mathlib.Decide.{dec_lt}
use stmanager.Prelude.{Text, List, [], ◌∷◌, ◌++◌, ◌≡◌, arith, append_assoc, append-nil, subst}
use stmanager.Sha256.Context.{Sha256Context, new_context, update, final_hash}
use stmanager.Sha256.Padding.{digest, flat}
use stmanager.Sha256.Absorb.{Absorbed, new_context-Absorbed, update-Absorbed}
use stmanager.Sha256.LastBlock.{final_hash_short, final_hash_long}

update_pieces-Absorbed :
    (pieces : List Text) (s : Sha256Context) (m : Text)
    → Absorbed s m
    → Absorbed (foldl update s pieces) (m ++ flat pieces)
update_pieces-Absorbed [] s m h = rw append-nil h
update_pieces-Absorbed (piece ∷ pieces) s m h =
    subst (Absorbed (foldl update (update s piece) pieces)) (append_assoc m piece (flat pieces))
      (update_pieces-Absorbed pieces (update s piece) (m ++ piece) (update-Absorbed s m piece h))

final_hash-digest : (s : Sha256Context) (m : Text) → Absorbed s m → final_hash s ≡ digest m
final_hash-digest s m h = elim (dec_lt s.data_len 56) [
  | yes e ↦ final_hash_short s m h e
  | no e ↦ final_hash_long s m h (omega arith)
]

-- However the bytes of a message are cut into calls of `update`, and whatever their number, `final`
-- leaves the SHA-256 hash of the whole message.
pub final_hash-update :
    (pieces : List Text) → final_hash (foldl update new_context pieces) ≡ digest (flat pieces)
final_hash-update pieces =
    final_hash-digest (foldl update new_context pieces) (flat pieces)
      (update_pieces-Absorbed pieces new_context [] new_context-Absorbed)
