-- ===== src/Frostd/Index.antt =====
-- The index from public keys to session ids: what each of its operations does to a look-up.
use frost_tools.Prelude.{
  ◌≡◌, refl, Bool, false, not, ◌&&◌, ◌||◌, none, some, List, [], ◌∷◌, arith, ◌==◌, nat_eq, get,
  get-insert, contains, contains-set_insert, contains-set_remove, set_insert, set_remove,
  or_default, Option-cases, inl, inr,
}
use frost_tools.Api.{Uuid, PublicKey, public_key_eq, public_key_beq_iff}
use frost_tools.Frostd.State.{Index, register, unregister, register_all, unregister_all}

-- Whether `id` is listed for `pubkey`.
unfoldable pub listed : Index → PublicKey → Uuid → Bool
listed m pubkey id = elim (get m pubkey) [ none ↦ false | some ids ↦ contains ids id ]

module _ (id : Uuid) where
  pub listed-register :
      (p : PublicKey) (m : Index) (q : PublicKey) (j : Uuid)
      → listed (register id p m) q j ≡ (p == q && id == j || listed m q j)
  unfolding listed register contains
  listed-register p m q j = ground (
    arith,
    public_key_beq_iff p q,
    get-insert p q (set_insert id (or_default (get m p))) m,
    contains-set_insert id j (or_default (get m p)),
  )

  pub listed-unregister :
      (p : PublicKey) (m : Index) (q : PublicKey) (j : Uuid)
      → listed (unregister id p m) q j ≡ (not (p == q && id == j) && listed m q j)
  unfolding listed unregister
  listed-unregister p m q j = elim (Option-cases (get m p)) [
    | inl e ↦ rw (e, unregister) (ground (arith, public_key_beq_iff p q))
    | inr (ids, e) ↦
        rw (e, unregister)
          (ground (
            arith,
            public_key_beq_iff p q,
            get-insert p q (set_remove id ids) m,
            contains-set_remove id j ids,
          ))
  ]

  pub listed-register_all :
      (ps : List PublicKey) (m : Index) (q : PublicKey) (j : Uuid)
      → listed (register_all id ps m) q j ≡ (contains ps q && id == j || listed m q j)
  unfolding register_all contains
  listed-register_all [] m q j = refl
  listed-register_all (p ∷ ps) m q j =
      ground (arith, listed-register_all ps (register id p m) q j, listed-register p m q j)

  pub listed-unregister_all :
      (ps : List PublicKey) (m : Index) (q : PublicKey) (j : Uuid)
      → listed (unregister_all id ps m) q j ≡ (not (contains ps q && id == j) && listed m q j)
  unfolding unregister_all contains
  listed-unregister_all [] m q j = refl
  listed-unregister_all (p ∷ ps) m q j =
      ground (arith, listed-unregister_all ps (unregister id p m) q j, listed-unregister p m q j)
