-- ===== src/Frostd/Mailbox.antt =====
-- The message queues: what `send` and `receive` do to them.
use frost_tools.Prelude.{
  ℕ, ◌≤◌, ◌≡◌, ◌≢◌, ◌↔◌, ◌⊎◌, inl, inr, refl, Bool, eq_iff, true, false, not, ◌&&◌, none, some,
  List, [], ◌∷◌, ◌++◌, map, arith, ◌==◌, nat_eq, Option-cases, Bool-cases, is_ok, ok, length,
  if◌then◌else◌, or_default, get, get-insert, contains, any, all,
}
use frost_tools.Api.{Uuid, PublicKey, public_key_eq, SendArgs, ReceiveArgs, Msg, max_msg_size}
use frost_tools.Frostd.State.{
  Session, SessionParticipant, coordinator, participant, session_participant_beq,
  session_participant_eq, session_participant_beq_iff, Env, AppState, session_timeout,
}
use frost_tools.Frostd.Functions.{
  User, Queues, push_back, push_all, recipients_of, in_session, is_stranger, mailbox, drain, send,
  receive,
}
use mathlib.Core.List.{append-nil, append_assoc}

-- The copies of a message that a list of recipients asks for in the queue of `r`.
unfoldable pub copies : Msg → SessionParticipant → List SessionParticipant → List Msg
copies m r [] = []
copies m r (p ∷ ps) = let rest = copies m r ps in if p == r then m ∷ rest else rest

-- The copies for the queue of `r` of a message that is sent to the participants `rs`, or to nobody in
-- particular: the coordinator's queue has it in the latter case alone.
abbrev pub copies_named : Msg → PublicKey → List PublicKey → List Msg
copies_named m p [] = []
copies_named m p (r ∷ rs) = let rest = copies_named m p rs in if r == p then m ∷ rest else rest

abbrev pub delivered : Msg → List PublicKey → SessionParticipant → List Msg
delivered m [] coordinator = m ∷ []
delivered m (r ∷ rs) coordinator = []
delivered m rs (participant p) = copies_named m p rs

copies-named :
    (m : Msg) (p : PublicKey) (rs : List PublicKey)
    → copies m (participant p) (map participant rs) ≡ copies_named m p rs
unfolding copies session_participant_beq
copies-named m p [] = refl
copies-named m p (r ∷ rs) = rw (copies-named m p rs) refl

copies-coordinator :
    (m : Msg) (rs : List PublicKey) → copies m coordinator (map participant rs) ≡ []
unfolding copies session_participant_beq
copies-coordinator m [] = refl
copies-coordinator m (r ∷ rs) = copies-coordinator m rs

pub copies-delivered :
    (m : Msg) (rs : List PublicKey) (r : SessionParticipant)
    → copies m r (recipients_of rs) ≡ delivered m rs r
unfolding copies recipients_of session_participant_beq
copies-delivered m [] coordinator = refl
copies-delivered m [] (participant p) = refl
copies-delivered m (q ∷ rs) coordinator = copies-coordinator m (q ∷ rs)
copies-delivered m (q ∷ rs) (participant p) = copies-named m p (q ∷ rs)

get-push_back :
    (m : Msg) (p r : SessionParticipant) (q : Queues)
    → or_default (get (push_back m p q) r) ≡ or_default (get q r) ++ (if p == r then m ∷ [] else [])
unfolding push_back
get-push_back m p r q = ground (
  arith,
  get-insert p r (or_default (get q p) ++ m ∷ []) q,
  session_participant_beq_iff p r,
  append-nil (or_default (get q r)),
)

pub get-push_all :
    (m : Msg) (r : SessionParticipant) (ps : List SessionParticipant) (q : Queues)
    → or_default (get (push_all m ps q) r) ≡ or_default (get q r) ++ copies m r ps
unfolding push_all copies
get-push_all m r [] q = rw append-nil
get-push_all m r (p ∷ ps) q =
    rw (get-push_all m r ps (push_back m p q), get-push_back m p r q)
      (elim (Bool-cases (p == r)) [
        | inl e ↦ rw e (append_assoc (or_default (get q r)) (m ∷ []) (copies m r ps))
        | inr e ↦ rw (e, append-nil) refl
      ])

get-drain :
    (p r : SessionParticipant) (q : Queues)
    → ((drain p q).0 ≡ or_default (get q p))
      × (or_default (get (drain p q).1 r) ≡ (if p == r then [] else or_default (get q r)))
unfolding drain
get-drain p r q = elim (Option-cases (get q p)) [
  | inl e ↦ rw (e, drain) (refl, ground (arith, session_participant_beq_iff p r))
  | inr (ms, e) ↦ rw (e, drain) (refl, ground (arith, get-insert p r [] q))
]

-- The queue that a user of a session may read: the coordinator's only with the coordinator's key.
abbrev pub Reads : Session → PublicKey → Bool → SessionParticipant → Type 0
Reads x p as_coordinator own =
    ((own ≡ coordinator) × (p ≡ x.coordinator_pubkey) × (as_coordinator ≡ true))
    ⊎ ((own ≡ participant p) × ((p ≢ x.coordinator_pubkey) ⊎ (as_coordinator ≡ false)))

mailbox-Reads :
    (x : Session) (p : PublicKey) (as_coordinator : Bool)
    → Reads x p as_coordinator (mailbox x p as_coordinator)
unfolding mailbox
mailbox-Reads x p false = elim (Bool-cases (p == x.coordinator_pubkey)) [
  | inl e ↦ rw e (inr (refl, inr refl))
  | inr e ↦ rw e (inr (refl, inr refl))
]
mailbox-Reads x p true = elim (Bool-cases (p == x.coordinator_pubkey)) [
  | inl e ↦ rw e (inl (refl, (eq_iff p x.coordinator_pubkey).0 e, refl))
  | inr e ↦ rw e (inr (refl, inl (λ same. absurd (ground (arith, eq_iff p x.coordinator_pubkey)))))
]

any-is_stranger-map :
    (x : Session) (rs : List PublicKey)
    → any (is_stranger x) (map participant rs) ≡ not (all (contains x.pubkeys) rs)
unfolding is_stranger
any-is_stranger-map x [] = refl
any-is_stranger-map x (r ∷ rs) = ground (arith, any-is_stranger-map x rs)

any-is_stranger :
    (x : Session) (rs : List PublicKey)
    → any (is_stranger x) (recipients_of rs) ≡ not (all (contains x.pubkeys) rs)
unfolding is_stranger recipients_of
any-is_stranger x [] = refl
any-is_stranger x (r ∷ rs) = any-is_stranger-map x (r ∷ rs)

module _ (E : Env) where
  -- What waits in session `id` for `r`.
  unfoldable pub queued : AppState E → Uuid → SessionParticipant → List Msg
  queued s id r = elim (E.sessions.get s.sessions id) [
    | none ↦ []
    | some x ↦ or_default (get x.queue r)
  ]

  module _ (now : ℕ) (user : User) (s : AppState E) where
    -- A message is accepted exactly if it is at most 65535 bytes long, its session exists, its
    -- sender is in that session, and every recipient is a participant of it.
    pub send_iff :
        (args : SendArgs)
        → (is_ok (send E now user args s).0 ≡ true) ↔ (
            (length args.msg ≤ max_msg_size)
            × ((x : Session) × (E.sessions.get s.sessions args.session_id ≡ some x)
                × (in_session x user.pubkey ≡ true)
                × (all (contains x.pubkeys) args.recipients ≡ true)))
    unfolding send
    send_iff args = (
      λ h. elim (Option-cases (E.sessions.get s.sessions args.session_id)) [
        | inl e ↦ absurd (ground arith)
        | inr (x, e) ↦ (
          ground arith,
          (
            x,
            e,
            ground (arith, any-is_stranger x args.recipients),
            ground (arith, any-is_stranger x args.recipients),
          ),
        )
      ],
      λ h.
          let (fits, (x, e, member, known)) = h in
          ground (arith, any-is_stranger x args.recipients),
    )

    pub send-copies :
        (args : SendArgs)
        → is_ok (send E now user args s).0 ≡ true
        → (j : Uuid) (r : SessionParticipant)
        → queued (send E now user args s).1 j r
          ≡ queued s j r
            ++ (if args.session_id == j
                then copies
                    (record { sender = user.pubkey; msg = args.msg })
                    r
                    (recipients_of args.recipients)
                else [])
    unfolding send queued
    send-copies args h j r = elim (Option-cases (E.sessions.get s.sessions args.session_id)) [
      | inl e ↦ absurd (ground arith)
      | inr (y, e) ↦
          let m : Msg = record { sender = user.pubkey; msg = args.msg } in
          let y' : Session = record y {
            queue = push_all m (recipients_of args.recipients) y.queue;
          } in
          ground (
            arith,
            E.sessions.get_set args.session_id j y' s.sessions,
            E.sessions.get_update_timeout now args.session_id session_timeout j
                (E.sessions.set args.session_id y' s.sessions),
            get-push_all m r (recipients_of args.recipients) y.queue,
            append-nil (queued s j r),
          )
    ]

    -- An accepted message goes to the end of the queue of each participant that is named as its
    -- recipient, once for each time that it is named; it goes to the end of the coordinator's queue
    -- exactly where nobody is named; and no other queue of any session changes.
    pub send_effect :
        (args : SendArgs)
        → is_ok (send E now user args s).0 ≡ true
        → (j : Uuid) (r : SessionParticipant)
        → queued (send E now user args s).1 j r
          ≡ queued s j r
            ++ (if args.session_id == j
                then delivered (record { sender = user.pubkey; msg = args.msg }) args.recipients r
                else [])
    send_effect args h j r =
        rw (← copies-delivered (record { sender = user.pubkey; msg = args.msg }) args.recipients r)
          (send-copies args h j r)

    pub receive-drains :
        (args : ReceiveArgs) (x : Session) (ms : List Msg)
        → E.sessions.get s.sessions args.session_id ≡ some x
        → (receive E now user args s).0 ≡ ok ms
        → let own = mailbox x user.pubkey args.as_coordinator in
          (ms ≡ queued s args.session_id own)
          × ((j : Uuid) (r : SessionParticipant)
              → queued (receive E now user args s).1 j r
                ≡ (if args.session_id == j && own == r then [] else queued s j r))
    unfolding receive queued
    receive-drains args x ms e h =
        let own = mailbox x user.pubkey args.as_coordinator in
        let x' : Session = record x { queue = (drain own x.queue).1 } in
        (
          ground (arith, (get-drain own own x.queue).0),
          λ j r. ground (
            arith,
            (get-drain own r x.queue).1,
            E.sessions.get_set args.session_id j x' s.sessions,
            E.sessions.get_update_timeout now args.session_id session_timeout j
                (E.sessions.set args.session_id x' s.sessions),
          ),
        )

    -- A successful `receive` returns all that waits in one queue of the session, oldest first, and
    -- empties that queue; no other queue of any session changes. It is the coordinator's queue if the
    -- user has the coordinator's key and asks for it, and the user's own queue as a participant if not.
    pub receive_effect :
        (args : ReceiveArgs) (x : Session) (ms : List Msg)
        → E.sessions.get s.sessions args.session_id ≡ some x
        → (receive E now user args s).0 ≡ ok ms
        → (own : SessionParticipant) × Reads x user.pubkey args.as_coordinator own
          × (ms ≡ queued s args.session_id own)
          × ((j : Uuid) (r : SessionParticipant)
              → queued (receive E now user args s).1 j r
                ≡ (if args.session_id == j && own == r then [] else queued s j r))
    receive_effect args x ms e h =
        let own = mailbox x user.pubkey args.as_coordinator in
        let (all, left) = receive-drains args x ms e h in
        (own, mailbox-Reads x user.pubkey args.as_coordinator, all, left)

    pub receive_refused :
        (args : ReceiveArgs)
        → is_ok (receive E now user args s).0 ≡ false
        → (receive E now user args s).1 ≡ s
    unfolding receive
    receive_refused args h = ground arith
