-- ===== src/Commands/Groups.antt =====
-- The participants of a group, by their keys.
use frost_tools.Prelude.{
  ◌≡◌, Bool, true, some, List, [], ◌∷◌, ◌==◌, eq_iff, values, ok, ok_or-ok, arith,
}
use frost_tools.Api.{PublicKey, public_key_eq}
use frost_tools.Config.File.{Group, Participant, find, participant_by_pubkey, participant_not_found}

pub find-true :
    {A : Type 0} (test : A → Bool) (xs : List A) (x : A) → find test xs ≡ some x → test x ≡ true
unfolding find
find-true test [] x e = cc
find-true test (y ∷ ys) x e = ground (arith, find-true test ys x)

pub participant_by_pubkey-pubkey :
    (group : Group) (p : PublicKey) (q : Participant)
    → participant_by_pubkey group p ≡ ok q
    → q.pubkey ≡ p
unfolding participant_by_pubkey
participant_by_pubkey-pubkey group p q e = (eq_iff q.pubkey p).0 (
    find-true (λ r. r.pubkey == p) (values group.participant) q
      (ok_or-ok (find (λ r. r.pubkey == p) (values group.participant)) participant_not_found e))
