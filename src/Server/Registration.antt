-- ===== src/Server/Registration.antt =====
-- `handleDevRegister` of pkg/router/handlers_meta.go: the registration of a worker over HTTP, and
-- `workerCount`. The address of the peer is found as in `handleConn`. HandleEvent of the registry
-- reports no error. No lock is held from the collision check to HandleEvent: `r` is the registry that
-- is checked, and `later` the registry that is told.
use mathlib.Core.Option.{none-ne-some, some_inj}
use infermesh.Prelude.{
  ℕ, ◌≡◌, refl, sym, ◌∙◌, subst, String, Bool, true, not, ◌&&◌, ◌||◌, Option, none, some, [], ◌∷◌,
  arith, str_eq, str_eq_sound, if◌then◌else◌, Bool-cases, inl, inr, length, Map, pos, int_leb,
  int_ltb,
}
use infermesh.Protocol.{WorkerInfo, added, status_available}
use infermesh.Registry.{Registry, handle_event, get, list_available}
use infermesh.Connections.{Net, peer_ip}
use infermesh.Connections.Calls.Identity.{ip_of, get-handle_event}
use infermesh.Server.{Reply, ok_reply, method_not_allowed, parse_error}

abbrev pub validation_error : Reply
validation_error = record { status = 400; code = "validation_error" }

-- The address that the worker is registered with: in dev mode that of the peer, otherwise the body's,
-- which is to be the loopback. The code of the refusal is "ip_validation_error".
abbrev pub dev_ip : Option String → ℕ × Option String
dev_ip none = (400, none)
dev_ip (some ip) = (200, some ip)

unfoldable pub registered_ip : {Ip : Type 0} → Net Ip → Bool → String → String → ℕ × Option String
unfolding peer_ip
registered_ip net dev_mode remote_addr worker_ip =
    if dev_mode
    then dev_ip (peer_ip net remote_addr)
    else if not (str_eq worker_ip "127.0.0.1") && not (str_eq worker_ip "localhost")
    then (403, none)
    else (200, some worker_ip)

module _ {F : Type 0} where
  -- The end of the handler: the status is forced, and the registry is told.
  unfoldable pub register_worker : ℕ → WorkerInfo F → Registry F → Registry F × Reply
  register_worker now worker r = (
    handle_event now
        (record { type_ = added; worker = record worker { status = status_available }; time = 0 })
        r,
    ok_reply,
  )

  -- The collision check, at what the registry knows of the id.
  unfoldable pub check_claim :
      ℕ → String → Option (WorkerInfo F) → WorkerInfo F → Registry F → Registry F × Reply
  unfolding register_worker
  check_claim now peer none worker r = register_worker now worker r
  check_claim now peer (some existing) worker r =
      if not (str_eq existing.ip peer)
      then (r, record { status = 409; code = "duplicate_id" })
      else register_worker now worker r

  unfoldable pub claim :
      ℕ → ℕ × Option String → WorkerInfo F → (r later : Registry F) → Registry F × Reply
  unfolding check_claim
  claim now (status, none) worker r later =
      (later, record { status = status; code = "ip_validation_error" })
  claim now (status, some ip) worker r later =
      check_claim now ip (get worker.id r) (record worker { ip = ip }) later

  unfoldable pub handle_dev_register :
      {Ip : Type 0}
      → Net Ip
      → Bool
      → ℕ
      → String
      → Option (WorkerInfo F)
      → String
      → (r later : Registry F) → Registry F × Reply
  unfolding claim registered_ip
  handle_dev_register net dev_mode now method none remote_addr r later =
      (later, if str_eq method "POST" then parse_error else method_not_allowed)
  handle_dev_register net dev_mode now method (some worker) remote_addr r later =
      if not (str_eq method "POST")
      then (later, method_not_allowed)
      else if str_eq worker.id ""
      then (later, validation_error)
      else if int_leb worker.port (pos 0) || int_ltb (pos 65535) worker.port
      then (later, validation_error)
      else claim now (registered_ip net dev_mode remote_addr worker.ip) worker r later

  -- `workerCount`: the workers of the cache or, where it is empty, those that the registry has available.
  unfoldable pub worker_count : Map (WorkerInfo F) → Registry F → ℕ
  worker_count [] r = length (list_available r.workers)
  worker_count (entry ∷ cache) r = length (entry ∷ cache)

  register_worker-ip_of :
      (now : ℕ) (worker : WorkerInfo F) (id ip : String) (r : Registry F)
      → ip_of (get id r) ≡ some ip
      → (str_eq worker.id id ≡ true → worker.ip ≡ ip)
      → ip_of (get id (register_worker now worker r).0) ≡ some ip
  unfolding register_worker
  register_worker-ip_of now worker id ip r e same =
      get-handle_event now (record worker { status = status_available }) r id ip e same

  check_claim-ip_of :
      (now : ℕ) (peer : String) (o : Option (WorkerInfo F)) (worker : WorkerInfo F) (id ip : String)
      (r : Registry F)
      → ip_of (get id r) ≡ some ip
      → (str_eq worker.id id ≡ true → ip_of o ≡ some ip)
      → worker.ip ≡ peer
      → ip_of (get id (check_claim now peer o worker r).0) ≡ some ip
  unfolding check_claim
  check_claim-ip_of now peer none worker id ip r e k q =
      register_worker-ip_of now worker id ip r e (λ same. absurd (none-ne-some ip (k same)))
  check_claim-ip_of now peer (some known) worker id ip r e k q =
      elim (Bool-cases (str_eq known.ip peer)) [
        | inl t ↦ rw t (
            register_worker-ip_of now worker id ip r e
              (λ same. q ∙ sym (str_eq_sound known.ip peer t) ∙ some_inj.0 (k same)))
        | inr t ↦ rw t e
      ]

  claim-ip_of :
      (now : ℕ) (a : ℕ × Option String) (worker : WorkerInfo F) (id ip : String)
      (r later : Registry F)
      → ip_of (get id r) ≡ some ip
      → ip_of (get id later) ≡ some ip
      → ip_of (get id (claim now a worker r later).0) ≡ some ip
  unfolding claim
  claim-ip_of now (status, none) worker id ip r later e f = f
  claim-ip_of now (status, some peer) worker id ip r later e f =
      check_claim-ip_of now peer (get worker.id r) (record worker { ip = peer }) id ip later f
        (λ same. subst (λ i. ip_of (get i r) ≡ some ip) (sym (str_eq_sound worker.id id same)) e)
        refl

  -- A registration over HTTP does not change the address of a worker that the registry knows, with
  -- that address, both when the handler checks the id (`r`) and when it tells the registry
  -- (`later`), whatever comes in between: in dev mode or not, for every body, method and address of
  -- the peer, and for every behaviour of package net. (A worker that the registry does not know yet
  -- at the check is not covered.)
  pub handle_dev_register-ip_of :
      {Ip : Type 0} (net : Net Ip) (dev_mode : Bool) (now : ℕ) (method : String)
      (body : Option (WorkerInfo F)) (remote_addr id ip : String) (r later : Registry F)
      → ip_of (get id r) ≡ some ip
      → ip_of (get id later) ≡ some ip
      → ip_of (get id (handle_dev_register net dev_mode now method body remote_addr r later).0)
        ≡ some ip
  unfolding handle_dev_register
  handle_dev_register-ip_of net dev_mode now method none remote_addr id ip r later e f = f
  handle_dev_register-ip_of net dev_mode now method (some worker) remote_addr id ip r later e f =
      let p =
        claim-ip_of now (registered_ip net dev_mode remote_addr worker.ip) worker id ip r later e
          f in
      ground (arith, p, f)
