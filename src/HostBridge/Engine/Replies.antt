-- ===== src/HostBridge/Engine/Replies.antt =====
-- The form of every reply of Engine.Dispatch.
use noqeri_registry.Prelude.{
  ◌≤◌, ◌≡◌, ◌≢◌, ◌↔◌, refl, sym, ◌∙◌, inl, inr, true, false, Bool-cases, Option-cases, List, [],
  ◌∷◌, Option, none, some, arith, length, ltb,
}
use noqeri_registry.Prelude.Text.{Bytes, codes}
use noqeri_registry.Prelude.Number.{parse_uint}
use noqeri_registry.HostBridge.Error.{
  Error, code, unsupported_protocol, invalid_id, unknown_operation, invalid_url,
  provider_host_not_allowed, invalid_argument_count, invalid_database_handle, unregistered_extern,
}
use noqeri_registry.HostBridge.Message.{Message, Reply, refusal, plain, safe_error, settle}
use noqeri_registry.HostBridge.Engine.Defs.{
  Outside, Engine, Op, Handler, invoke, ping, http_status, unknown, read_op, done, opened_reply,
  query_reply, exec_reply, http_reply, Symbol, provider_http_status, provider_http_json,
  noqeri_db_open, sqlite_open, db_close_symbol, db_execute_symbol, unregistered, read_symbol,
  invoke_symbol, dispatch_op, is_one, dispatch_with, find_provider, http_with, http_json,
  status_extern, open_extern, close_extern, execute_extern, invoke_extern, extern_reply,
  dispatch_service, dispatch,
}

code-ne-nil : (e : Error) → code e ≢ []
unfolding code codes
code-ne-nil unsupported_protocol = cc
code-ne-nil _ = cc

pub code-short : (e : Error) → length (code e) ≤ 90
unfolding code codes
code-short unsupported_protocol = omega arith
code-short _ = omega arith

-- An error code reaches the caller as it is.
pub safe_error-code : (e : Error) → safe_error (plain (code e)) ≡ code e
unfolding safe_error
safe_error-code e = ground (arith, code-short e)

pub record IsReply (id : Bytes) (r : Reply) : Type 0 where
  pub versioned : r.version ≡ 1
  pub echoed : r.id ≡ id
  pub exclusive : (r.ok ≡ true) ↔ (r.error ≡ [])

pub refusal-IsReply : (id : Bytes) (e : Error) → IsReply id (refusal id e)
refusal-IsReply id e = record {
  versioned = refl;
  echoed = refl;
  exclusive = (λ h. cc, λ h. absurd (code-ne-nil e h));
}

settle-IsReply :
    (id : Bytes) (o : Option Error) (r : Reply)
    → r.version ≡ 1
    → r.id ≡ id
    → r.ok ≡ false
    → r.error ≡ []
    → IsReply id (settle o r)
unfolding settle
settle-IsReply id none r v i k e = record {
  versioned = v;
  echoed = i;
  exclusive = (λ h. e, λ h. refl);
}
settle-IsReply id (some c) r v i k e = record {
  versioned = v;
  echoed = i;
  exclusive = (λ h. cc, λ h. absurd (code-ne-nil c (sym (safe_error-code c) ∙ h)));
}

abbrev Replies : Handler → Type 0
Replies h = (m : Message) (e : Engine) → IsReply m.id (h m e).0

module _ (out : Outside) where
  dispatch_op-Replies :
      (extern : Handler) → Replies extern → (op : Op) → Replies (dispatch_op out extern op)
  unfolding dispatch_op done opened_reply query_reply exec_reply http_reply
  dispatch_op-Replies extern good invoke m e = good m e
  dispatch_op-Replies extern good ping m e = record {
    versioned = refl;
    echoed = refl;
    exclusive = (λ h. refl, λ h. refl);
  }
  dispatch_op-Replies extern good http_status m e = record {
    versioned = refl;
    echoed = refl;
    exclusive = (λ h. refl, λ h. refl);
  }
  dispatch_op-Replies extern good unknown m e = refusal-IsReply m.id unknown_operation
  dispatch_op-Replies extern good _ m e = settle-IsReply m.id _ _ refl refl refl refl

  dispatch_with-Replies : (extern : Handler) → Replies extern → Replies (dispatch_with out extern)
  unfolding dispatch_with
  dispatch_with-Replies extern good m e = elim (Bool-cases (is_one m.version)) [
    | inl one ↦ elim (Bool-cases (ltb 128 (length m.id))) [
      | inl long ↦ rw (one, long) (refusal-IsReply m.id invalid_id)
      | inr fits ↦ rw (one, fits) (dispatch_op-Replies extern good (read_op m.op) m e)
    ]
    | inr other ↦ rw other (refusal-IsReply m.id unsupported_protocol)
  ]

  module _ (d : Handler) (good : Replies d) where
    http_json-IsReply : (args : List Bytes) (e : Engine) → IsReply [] (http_json out d args e).0
    unfolding http_json http_with
    http_json-IsReply (method ∷ url ∷ a ∷ b ∷ c ∷ f ∷ body ∷ []) e =
        elim (Option-cases (out.web.parse_url url)) [
          | inl bad ↦ rw (bad, http_json) (refusal-IsReply [] invalid_url)
          | inr (u, parsed) ↦ elim (Option-cases (find_provider out u.hostname out.walk)) [
            | inl missing ↦
                rw (parsed, http_json, missing) (refusal-IsReply [] provider_host_not_allowed)
            | inr (p, found) ↦ rw (parsed, http_json, found) (good _ e)
          ]
        ]
    http_json-IsReply _ e = refusal-IsReply [] invalid_argument_count

    status_extern-IsReply :
        (args : List Bytes) (e : Engine) → IsReply [] (status_extern out d args e).0
    unfolding status_extern
    status_extern-IsReply [] e = record {
      versioned = refl;
      echoed = refl;
      exclusive = (λ h. refl, λ h. refl);
    }
    status_extern-IsReply _ e = refusal-IsReply [] invalid_argument_count

    open_extern-IsReply :
        (driver : Bytes) (args : List Bytes) (e : Engine)
        → IsReply [] (open_extern out d driver args e).0
    unfolding open_extern
    open_extern-IsReply driver (a ∷ []) e = good _ e
    open_extern-IsReply driver _ e = refusal-IsReply [] invalid_argument_count

    close_extern-IsReply :
        (args : List Bytes) (e : Engine) → IsReply [] (close_extern out d args e).0
    unfolding close_extern
    close_extern-IsReply (handle ∷ []) e = elim (Option-cases (parse_uint handle)) [
      | inl bad ↦ rw (bad, close_extern) (refusal-IsReply [] invalid_database_handle)
      | inr (id, read) ↦ rw (read, close_extern) (good _ e)
    ]
    close_extern-IsReply _ e = refusal-IsReply [] invalid_argument_count

    execute_extern-IsReply :
        (args : List Bytes) (e : Engine) → IsReply [] (execute_extern out d args e).0
    unfolding execute_extern
    execute_extern-IsReply (handle ∷ query ∷ []) e = elim (Option-cases (parse_uint handle)) [
      | inl bad ↦ rw (bad, execute_extern) (refusal-IsReply [] invalid_database_handle)
      | inr (id, read) ↦ rw (read, execute_extern) (good _ e)
    ]
    execute_extern-IsReply _ e = refusal-IsReply [] invalid_argument_count

    invoke_symbol-IsReply :
        (symbol : Symbol) (args : List Bytes) (e : Engine)
        → IsReply [] (invoke_symbol out d symbol args e).0
    unfolding invoke_symbol
    invoke_symbol-IsReply provider_http_status args e = status_extern-IsReply args e
    invoke_symbol-IsReply provider_http_json args e = http_json-IsReply args e
    invoke_symbol-IsReply noqeri_db_open args e = open_extern-IsReply (codes "postgres") args e
    invoke_symbol-IsReply sqlite_open args e = open_extern-IsReply (codes "sqlite") args e
    invoke_symbol-IsReply db_close_symbol args e = close_extern-IsReply args e
    invoke_symbol-IsReply db_execute_symbol args e = execute_extern-IsReply args e
    invoke_symbol-IsReply unregistered args e = refusal-IsReply [] unregistered_extern

    extern_reply-Replies : Replies (extern_reply out d)
    unfolding extern_reply invoke_extern
    extern_reply-Replies m e =
        let r = invoke_symbol-IsReply (read_symbol m.symbol) m.arguments e in
        record { versioned = r.versioned; echoed = refl; exclusive = r.exclusive }

  dispatch_service-Replies : Replies (dispatch_service out)
  unfolding dispatch_service
  dispatch_service-Replies = dispatch_with-Replies _ (λ m e. refusal-IsReply m.id unknown_operation)

-- Every request gets one reply of protocol version 1 under the request's own id, whatever the
-- request is and whatever the outside world answers; it is a success or carries an error code, and
-- never both.
pub dispatch-IsReply :
    (out : Outside) (m : Message) (e : Engine) → IsReply m.id (dispatch out m e).0
unfolding dispatch
dispatch-IsReply out =
    dispatch_with-Replies out _ (extern_reply-Replies out _ (dispatch_service-Replies out))
