-- ===== src/Frostd/Registry.antt =====
-- The index `sessions_by_pubkey` against the map of sessions: who is listed for which session.
use frost_tools.Prelude.{ℕ, ◌≡◌, false, some, [], arith, Option-cases, inl, inr}
use frost_tools.Api.{Uuid, PublicKey, CreateNewSessionArgs, SendArgs, ReceiveArgs}
use frost_tools.Frostd.State.{
  Session, Env, AppState, register_all, unregister_all, session_timeout, expire_session,
}
use frost_tools.Frostd.Functions.{
  User, in_session, create_new_session, send, receive, close_session, push_all, recipients_of,
  drain, mailbox,
}
use frost_tools.Frostd.Index.{
  listed, listed-register, listed-register_all, listed-unregister, listed-unregister_all,
}

-- Of every session, exactly the participants and the coordinator have its id in their list.
pub record IsIndexed (E : Env) (s : AppState E) : Type 0 where
  pub members :
      (id : Uuid) (x : Session) (p : PublicKey)
      → E.sessions.get s.sessions id ≡ some x
      → listed s.sessions_by_pubkey p id ≡ in_session x p

-- No key has the id in its list: what the server relies on for an id that `new_v4` returns.
pub record IsFresh (E : Env) (s : AppState E) (id : Uuid) : Type 0 where
  pub unlisted : (p : PublicKey) → listed s.sessions_by_pubkey p id ≡ false

module _ (E : Env) (s : AppState E) (v : IsIndexed E s) where
  pub create-IsIndexed :
      (now : ℕ) (id : Uuid) (user : User) (args : CreateNewSessionArgs)
      → IsFresh E s id
      → IsIndexed E (create_new_session E now id user args s).1
  unfolding create_new_session in_session
  create-IsIndexed now id user args f = record {
    members = λ j x p h. ground (
      arith,
      v.members j x p,
      f.unlisted p,
      listed-register id user.pubkey (register_all id args.pubkeys s.sessions_by_pubkey) p j,
      listed-register_all id args.pubkeys s.sessions_by_pubkey p j,
      E.sessions.get_insert now id j
          (record {
            pubkeys = args.pubkeys;
            coordinator_pubkey = user.pubkey;
            message_count = args.message_count;
            queue = [];
          })
          s.sessions,
    );
  }

  pub close-IsIndexed : (user : User) (id : Uuid) → IsIndexed E (close_session E user id s).1
  unfolding close_session listed in_session
  close-IsIndexed user id = record {
    members = λ j x p h. elim (Option-cases (E.sessions.get s.sessions id)) [
      | inl e ↦ ground (arith, v.members j x p)
      | inr (y, e) ↦ ground (
        arith,
        v.members j x p,
        E.sessions.get_remove id j s.sessions,
        listed-unregister id user.pubkey (unregister_all id y.pubkeys s.sessions_by_pubkey) p j,
        listed-unregister_all id y.pubkeys s.sessions_by_pubkey p j,
      )
    ];
  }

  pub send-IsIndexed :
      (now : ℕ) (user : User) (args : SendArgs) → IsIndexed E (send E now user args s).1
  unfolding send in_session
  send-IsIndexed now user args = record {
    members = λ j x p h. elim (Option-cases (E.sessions.get s.sessions args.session_id)) [
      | inl e ↦ ground (arith, v.members j x p)
      | inr (y, e) ↦
          let y' : Session = record y {
            queue =
                push_all (record { sender = user.pubkey; msg = args.msg })
                  (recipients_of args.recipients) y.queue;
          } in
          ground (
            arith,
            v.members j x p,
            v.members j y p,
            E.sessions.get_set args.session_id j y' s.sessions,
            E.sessions.get_update_timeout now args.session_id session_timeout j
                (E.sessions.set args.session_id y' s.sessions),
          )
    ];
  }

  pub receive-IsIndexed :
      (now : ℕ) (user : User) (args : ReceiveArgs) → IsIndexed E (receive E now user args s).1
  unfolding receive in_session
  receive-IsIndexed now user args = record {
    members = λ j x p h. elim (Option-cases (E.sessions.get s.sessions args.session_id)) [
      | inl e ↦ ground (arith, v.members j x p)
      | inr (y, e) ↦
          let y' : Session = record y {
            queue = (drain (mailbox y user.pubkey args.as_coordinator) y.queue).1;
          } in
          ground (
            arith,
            v.members j x p,
            v.members j y p,
            E.sessions.get_set args.session_id j y' s.sessions,
            E.sessions.get_update_timeout now args.session_id session_timeout j
                (E.sessions.set args.session_id y' s.sessions),
          )
    ];
  }

  pub expire-IsIndexed : (now : ℕ) → IsIndexed E (expire_session E now s)
  unfolding expire_session
  expire-IsIndexed now = record {
    members = λ j x p h. elim (Option-cases (E.sessions.next now s.sessions)) [
      | inl e ↦ ground (arith, v.members j x p)
      | inr ((id, y, rest), e) ↦ ground (
        arith,
        v.members j x p,
        E.sessions.next_removes now id y s.sessions rest e j,
        listed-unregister_all id y.pubkeys s.sessions_by_pubkey p j,
      )
    ];
  }
