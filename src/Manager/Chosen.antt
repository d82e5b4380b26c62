-- ===== src/Manager/Chosen.antt =====
-- What `resolve_pair_target` selects, and that a manager is ready after its initialisation.
use stmanager.Prelude.{
  true, false, is_empty, text_eq, text_eq_sound, not, List, [], ◌∷◌, ◌≡◌, refl, arith, ◌&&◌,
  Bool-cases, inl, inr, codes, subst,
}
use stmanager.Prelude.Int.{is_positive}
use stmanager.Status.{Result, ok}
use stmanager.Client.Pair.{DeviceInfo}
use stmanager.Client.Sync.{Discovery}
use stmanager.Client.Branches.{lift-holds, choice-holds}
use stmanager.Manager.State.{Manager, ensure_initialized}
use stmanager.Manager.Targets.{
  PairSyncRequest, Targets, staged, given_target, host_candidates, front_selected, completed_device,
  device_of_id, select_target, manager_discover_devices, resolve_discovered, resolve_pair_target,
}

-- A device that answers a request: it has the id, the host and the port that the request gives, and
-- where the request gives an id, a port to connect to.
pub record Fits (request : PairSyncRequest) (device : DeviceInfo) : Type 0 where
  pub has_id : is_empty request.device_id ≡ false → device.device_id ≡ request.device_id
  pub has_host : is_empty request.host ≡ false → device.host ≡ request.host
  pub has_port : is_positive request.port ≡ true → device.port ≡ request.port
  pub has_any_port : is_empty request.device_id ≡ false → is_positive device.port ≡ true

abbrev pub AllFit : PairSyncRequest → List DeviceInfo → Type 0
AllFit request [] = Unit {0}
AllFit request (device ∷ rest) = Fits request device × AllFit request rest

pub record Chosen (request : PairSyncRequest) (t : Targets) : Type 0 where
  pub others : List DeviceInfo
  pub is_first : t.candidates ≡ t.auto_selected ∷ others
  pub all_fit : AllFit request t.candidates

abbrev Answer : PairSyncRequest → Result Targets → Type 0
Answer request r = (t : Targets) → r ≡ ok t → Chosen request t

given_target-Chosen : (request : PairSyncRequest) → Chosen request (given_target request)
unfolding given_target
given_target-Chosen request = record {
  others = [];
  is_first = refl;
  all_fit = (
    record {
      has_id = λ e. refl;
      has_host = λ e. refl;
      has_port = λ e. ground arith;
      has_any_port = λ e. ground arith;
    },
    tt,
  );
}

host_candidates-AllFit :
    (request : PairSyncRequest) (devices : List DeviceInfo)
    → is_empty request.device_id ≡ true
    → AllFit request (host_candidates request devices)
unfolding host_candidates
host_candidates-AllFit request [] e = tt
host_candidates-AllFit request (device ∷ rest) e =
    elim (Bool-cases (not (is_empty request.host) && not (text_eq request.host device.host))) [
      | inl skipped ↦ rw skipped (host_candidates-AllFit request rest e)
      | inr taken ↦ rw taken (
        record {
          has_id = λ h. ground arith;
          has_host = λ h. ground (arith, text_eq_sound request.host device.host);
          has_port = λ h. ground arith;
          has_any_port = λ h. ground arith;
        },
        host_candidates-AllFit request rest e,
      )
    ]

completed_device-Fits :
    (request : PairSyncRequest) (device : DeviceInfo)
    → text_eq device.device_id request.device_id ≡ true
    → Fits request (completed_device request device)
unfolding completed_device
completed_device-Fits request device same = record {
  has_id = λ h. text_eq_sound device.device_id request.device_id same;
  has_host = λ h. ground arith;
  has_port = λ h. ground arith;
  has_any_port = λ h. ground arith;
}

front_selected-Answer :
    (request : PairSyncRequest) (devices : List DeviceInfo)
    → AllFit request devices
    → Answer request (front_selected devices)
front_selected-Answer request [] fit t e = cc
front_selected-Answer request (device ∷ rest) fit t e =
    subst (Chosen request) (same e) (record { others = rest; is_first = refl; all_fit = fit })
  where
    same : {x y : Targets} → Result.ok x ≡ Result.ok y → x ≡ y
    same e = cc

device_of_id-Answer :
    (request : PairSyncRequest) (devices : List DeviceInfo)
    → Answer request (device_of_id request devices)
unfolding device_of_id
device_of_id-Answer request [] t e = cc
device_of_id-Answer request (device ∷ rest) t e =
    elim (Bool-cases (text_eq device.device_id request.device_id)) [
      | inl same ↦ one same (rw same at e)
      | inr other ↦ device_of_id-Answer request rest t (rw other at e)
    ]
  where
    one :
        text_eq device.device_id request.device_id ≡ true
        → ok (record {
          candidates = completed_device request device ∷ [];
          auto_selected = completed_device request device;
        })
          ≡ ok t
        → Chosen request t
    one same e = subst (Chosen request) (equal e) (record {
      others = [];
      is_first = refl;
      all_fit = (completed_device-Fits request device same, tt);
    })
      where
        equal : {x y : Targets} → Result.ok x ≡ Result.ok y → x ≡ y
        equal e = cc

select_target-Answer :
    (request : PairSyncRequest) (devices : List DeviceInfo)
    → Answer request (select_target request devices)
unfolding select_target
select_target-Answer request devices t e = elim (Bool-cases (is_empty request.device_id)) [
  | inl none_given ↦
      front_selected-Answer request (host_candidates request devices)
        (host_candidates-AllFit request devices none_given) t (rw none_given at e)
  | inr given ↦ device_of_id-Answer request devices t (rw given at e)
]

module _ (m : Manager) (found : Discovery) (request : PairSyncRequest) where
  abbrev Answered : Result Targets × found.Browser → Type 0
  Answered x = Answer request x.0

  resolve_discovered-Answered :
      (b : found.Browser) → Answered (resolve_discovered m found request b)
  unfolding resolve_discovered
  resolve_discovered-Answered b =
      lift-holds Answered
        (staged (codes "manager.resolve_pair_target.discover")
          (manager_discover_devices m found b).0)
        _ (manager_discover_devices m found b).1 (λ t e. cc) (λ w t e. cc) (λ s t e. cc)
        (λ devices d. select_target-Answer request devices)

  -- Whatever discovery finds: the device that resolving a request selects is the first candidate,
  -- and every candidate has the id, the host and the port that the request gives, and a positive
  -- port wherever the request gives an id.
  pub resolve_pair_target-Chosen :
      (b : found.Browser) (t : Targets)
      → (resolve_pair_target m found request b).0 ≡ ok t
      → Chosen request t
  unfolding resolve_pair_target
  resolve_pair_target-Chosen b =
      lift-holds Answered (staged (codes "manager.resolve_pair_target.init") (ensure_initialized m))
        _ b (λ t e. cc) (λ w t e. cc) (λ s t e. cc)
        (λ a i.
          choice-holds Answered (is_empty request.host && is_positive request.port) _ _ b
            (λ c t e. cc)
            (λ c.
              choice-holds Answered
                (not (is_empty request.device_id) && not (is_empty request.host)) _ _ b
                (λ g t e. subst (Chosen request) (same e) (given_target-Chosen request))
                (λ g. resolve_discovered-Answered b)))
    where
      same : {x y : Targets} → Result.ok x ≡ Result.ok y → x ≡ y
      same e = cc
