-- ===== src/Server/Archive.antt =====
-- When the server hands out an archive, and that the client gets it.
use stmanager.Prelude.{
  ℕ, Text, Bool, true, false, codes, is_empty, text_eq, text_eq_sound, [], not, ◌≡◌, refl, ap, ◌∙◌,
}
use stmanager.Status.{ok, Exec, ◌>>◌}
use stmanager.Json.{Json, JsonLibrary, value_string}
use stmanager.Wire.Socket.{Socket}
use stmanager.Wire.Runs.{in_stream}
use stmanager.TrustedDevices.Store.{TrustStore}
use stmanager.Server.Replies.{send_json_response, server_send_framed_stream}
use stmanager.Server.Requests.{
  ServerSetup, send_backup, auth_loaded, auth_checked, handle_auth_request,
}
use stmanager.Server.Trust.{lift-keeps, if-keeps, if_done-keeps, settle-keeps}

pub double_negated : (b : Bool) → not b ≡ false → b ≡ true
double_negated true e = refl
double_negated false e = cc

module _ (lib : JsonLibrary) (k : Socket) (fuel : ℕ) (store : TrustStore)
    (setup : ServerSetup) where
  -- Under these conditions a request gets the archive.
  pub record MaySend (request_json : Json) (t : store.State) (archive : Text) : Type 0 where
    pub device : Text
    pub device_named : value_string lib (codes "device_id") [] request_json ≡ ok device
    pub device_given : is_empty device ≡ false
    pub configured : setup.has_store ≡ true
    pub loaded : (store.load t).0 ≡ ok tt
    pub trusted : store.is_trusted (store.load t).1 device ≡ true
    pub pulls : value_string lib (codes "direction") [] request_json ≡ ok (codes "pull")
    pub backed_up : setup.backup ≡ ok archive
    pub not_empty : is_empty archive ≡ false

  abbrev pub accept_with : Text → Exec k.Conn (Unit {0})
  accept_with archive =
      send_json_response k fuel lib (codes "auth_response") true []
      >> server_send_framed_stream k fuel (in_stream archive)

  -- What can have been sent to the client: nothing, one refusal, or an answer with the archive.
  pub data AuthOutcome (request_json : Json) (t : store.State) (c : k.Conn) : k.Conn → Type 0 where
    silent : AuthOutcome request_json t c c
    refused :
        (error : Text)
        → AuthOutcome request_json t c
            (send_json_response k fuel lib (codes "auth_response") false error c).1
    served :
        (archive : Text)
        → MaySend request_json t archive
        → AuthOutcome request_json t c (accept_with archive c).1

  module _ (j : Json) (c : k.Conn) (t : store.State) (device direction : Text)
      (named : value_string lib (codes "device_id") [] j ≡ ok device)
      (directed : value_string lib (codes "direction") [] j ≡ ok direction) where
    abbrev Outcome : k.Conn × store.State → Type 0
    Outcome u = AuthOutcome j t c u.0

    module _ (given : is_empty device ≡ false) (configured : setup.has_store ≡ true)
        (loaded : (store.load t).0 ≡ ok tt) where
      auth_loaded-Outcome :
          Outcome (auth_loaded lib k fuel store setup device direction (c, (store.load t).1)).1
      unfolding auth_loaded send_backup
      auth_loaded-Outcome =
          if_done-keeps Outcome (not (store.is_trusted (store.load t).1 device)) _ _
            (λ e. refused _)
            (λ e.
              if_done-keeps Outcome (not (text_eq direction (codes "pull"))) _ _ (λ p. refused _)
                (λ p.
                  settle-keeps Outcome setup.backup _ _ (c, (store.load t).1) silent
                    (λ e'. refused _)
                    (λ archive b.
                      if-keeps Outcome (is_empty archive) _ _ (c, (store.load t).1) (λ n. refused _)
                        (λ n. served archive (record {
                          device = device;
                          device_named = named;
                          device_given = given;
                          configured = configured;
                          loaded = loaded;
                          trusted = double_negated _ e;
                          pulls =
                              directed
                              ∙ ap ok (text_eq_sound direction (codes "pull") (double_negated _ p));
                          backed_up = b;
                          not_empty = n;
                        })))))

    auth_checked-Outcome : Outcome (auth_checked lib k fuel store setup device direction (c, t)).1
    unfolding auth_checked
    auth_checked-Outcome =
        if-keeps Outcome (is_empty device) _ _ (c, t) (λ e. refused _)
          (λ e.
            if-keeps Outcome (not setup.has_store) _ _ (c, t) (λ h. refused _)
              (λ h.
                settle-keeps Outcome (store.load t).0 _ _ (c, (store.load t).1) silent
                  (λ e'. refused _) (λ a l. auth_loaded-Outcome e (double_negated _ h) l)))

  -- Whatever an authorisation request holds, the client gets nothing, a single refusal, or the
  -- answer with the archive; and the last only if the request names a device, the store of the
  -- trusted devices is there, was loaded and trusts that device, the request asks to pull, and the
  -- backup succeeded and is not empty.
  pub handle_auth_request-AuthOutcome :
      (request_json : Json) (c : k.Conn) (t : store.State)
      → AuthOutcome request_json t c
          (handle_auth_request lib k fuel store setup request_json (c, t)).1.0
  unfolding handle_auth_request
  handle_auth_request-AuthOutcome j c t =
      let P : k.Conn × store.State → Type 0 = λ u. AuthOutcome j t c u.0 in
      lift-keeps P (value_string lib (codes "device_id") [] j) _ (c, t) silent
        (λ device d.
          lift-keeps P (value_string lib (codes "direction") [] j) _ (c, t) silent
            (λ direction e. auth_checked-Outcome j c t device direction d e))
