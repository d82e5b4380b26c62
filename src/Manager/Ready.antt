-- ===== src/Manager/Ready.antt =====
-- That a manager is ready for every other call once it is initialised.
use stmanager.Prelude.{
  Text, Bool, true, false, is_empty, not, ◌≡◌, refl, codes, if◌then◌else◌, Option, none, some,
  subst,
}
use stmanager.Status.{Result, ok, err, looping, threw}
use stmanager.PathSafety.Disk.{Disk}
use stmanager.PathSafety.Paths.{join_path}
use stmanager.PathSafety.Ensure.{ensure_directory_tree}
use stmanager.TrustedDevices.Files.{WriteResult, not_opened, cut_short, complete}
use stmanager.DataManager.{DataManager, is_valid, locate}
use stmanager.Server.Archive.{double_negated}
use stmanager.Client.Branches.{choice-holds, bind-holds}
use stmanager.Manager.State.{
  Host, Manager, ensure_initialized, generate_device_id, create_device_id, id_written, line_or_new,
  local_name, load_or_create_device_id, initialize_located, initialize_from_root, name_or_id,
}

module _ {os : Disk} (host : Host os) where
  abbrev Nonempty : Result Text × os.State → Type 0
  Nonempty x = (id : Text) → x.0 ≡ ok id → is_empty id ≡ false

  same_text : {a b : Text} → Result.ok a ≡ Result.ok b → a ≡ b
  same_text e = cc

  generated_is_given : is_empty (generate_device_id host) ≡ false
  unfolding generate_device_id codes
  generated_is_given = refl

  id_written-Nonempty :
      (id : Text) (w : WriteResult) (s : os.State)
      → is_empty id ≡ false
      → Nonempty (id_written host id w, s)
  id_written-Nonempty id not_opened s given x e = cc
  id_written-Nonempty id cut_short s given x e = cc
  id_written-Nonempty id complete s given x e =
      subst (λ (t : Text). is_empty t ≡ false) (same_text e) given

  create_device_id-Nonempty : (path : Text) (s : os.State) → Nonempty (create_device_id host path s)
  unfolding create_device_id
  create_device_id-Nonempty path s =
      id_written-Nonempty _ _ (create_device_id host path s).1 generated_is_given

  line_or_new-Nonempty :
      (path : Text) (line : Option Text) (s : os.State) → Nonempty (line_or_new host path line s)
  line_or_new-Nonempty path none s = create_device_id-Nonempty path s
  line_or_new-Nonempty path (some line) s =
      choice-holds Nonempty (is_empty line) _ _ s (λ e. create_device_id-Nonempty path s)
        (λ given id e. subst (λ (t : Text). is_empty t ≡ false) (same_text e) given)

  name_or_id-Nonempty :
      (id : Text) (r : Result Text) (s : os.State)
      → is_empty id ≡ false
      → Nonempty (name_or_id host id r, s)
  name_or_id-Nonempty id (ok name) s given x e = named name (is_empty name) refl x e
    where
      named :
          (name : Text) (b : Bool)
          → is_empty name ≡ b
          → (x : Text) → Result.ok (if b then id else name) ≡ ok x
          → is_empty x ≡ false
      named name true n x e = subst (λ (t : Text). is_empty t ≡ false) (same_text e) given
      named name false n x e = subst (λ (t : Text). is_empty t ≡ false) (same_text e) n
  name_or_id-Nonempty id (err f) s given x e =
      subst (λ (t : Text). is_empty t ≡ false) (same_text e) given
  name_or_id-Nonempty id looping s given x e = cc
  name_or_id-Nonempty id (threw w) s given x e = cc

  abbrev Ready : Result Manager × os.State → Type 0
  Ready x = (m : Manager) → x.0 ≡ ok m → ensure_initialized m ≡ ok tt

  same_manager : {a b : Manager} → Result.ok a ≡ Result.ok b → a ≡ b
  same_manager e = cc

  built-ensure_initialized :
      (d : DataManager) (dir id name path : Text)
      → is_valid d ≡ true
      → is_empty id ≡ false
      → is_empty name ≡ false
      → ensure_initialized (record {
        data_manager = d;
        state_dir = dir;
        local_device_id = id;
        local_device_name = name;
        trusted_store_path = path;
        initialized = true;
      })
        ≡ ok tt
  unfolding ensure_initialized
  built-ensure_initialized d dir id name path v i n = rw v (rw i (rw n refl))

  initialize_located-Ready :
      (d : DataManager) (s : os.State) → is_valid d ≡ true → Ready (initialize_located host d s)
  unfolding initialize_located load_or_create_device_id
  initialize_located-Ready d s valid =
      let dir = join_path d.root_path (codes ".stmanager") in
      bind-holds Ready (ensure_directory_tree os dir 493) _ s (λ m e. cc) (λ w m e. cc)
        (λ f m e. cc)
        (λ a made.
          let s' = (ensure_directory_tree os dir 493 s).1 in
          let path = join_path dir (codes "device_id") in
          bind-holds Ready (load_or_create_device_id host path) _ s' (λ m e. cc) (λ w m e. cc)
            (λ f m e. cc)
            (λ id i.
              let s'' = (load_or_create_device_id host path s').1 in
              bind-holds Ready (local_name host id) _ s'' (λ m e. cc) (λ w m e. cc) (λ f m e. cc)
                (λ name n m e.
                  subst (λ (x : Manager). ensure_initialized x ≡ ok tt) (same_manager e)
                    (built-ensure_initialized d dir id name _ valid
                      (line_or_new-Nonempty path (host.read_line s' path) s' id i)
                      (name_or_id-Nonempty id (host.current_device_name s'').0 s''
                        (line_or_new-Nonempty path (host.read_line s' path) s' id i) name n)))))

  -- A manager that was initialised from a root passes the check that every other call begins with.
  pub initialize_from_root-ready :
      (root_path : Text) (s : os.State) (m : Manager)
      → (initialize_from_root host root_path s).0 ≡ ok m
      → ensure_initialized m ≡ ok tt
  unfolding initialize_from_root
  initialize_from_root-ready root_path s =
      bind-holds Ready (locate os root_path) _ s (λ m e. cc) (λ w m e. cc) (λ f m e. cc)
        (λ d l.
          choice-holds Ready (not (is_valid d)) _ _ _ (λ n m e. cc)
            (λ n. initialize_located-Ready d _ (double_negated _ n)))
