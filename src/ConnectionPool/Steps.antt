-- ===== src/ConnectionPool/Steps.antt =====
-- Attach, Erase and OnTimeout of include/ConnectionPool.hpp keep the pool in order.
use libsimplesvr.Base.{
  ℕ, suc, ◌+◌, ◌<◌, ◌≡◌, inl, inr, sym, ap, subst, ◌∙◌, true, false, none, some, List, [], ◌∷◌, All,
  ltb, leb, ◌==◌, u32, arith, Bool-cases, Option-cases,
}
use libsimplesvr.Base.Sums.{put, sum_below, sum_below-ext}
use libsimplesvr.Timer.Wheel.{Timer}
use libsimplesvr.Timer.Ops.{clear}
use libsimplesvr.ConnectionPool.{
  ConnectionInfo, ConnectionPool, new_conn_info, activate, attach_new, attach_idle, attach,
  push_idle, start_idle, detach, erase, remove_idle, on_timeout,
}
use libsimplesvr.ConnectionPool.Keep.{
  live, IsIdle, Others, Distinct, IsPool, Keeps, put_same, put_other, idle-put, idle-Others,
  absent_Lists, changed_Lists, count_stays, count_goes, unused_put, same_active,
}

-- The idle timeout touches neither the address nor the mark.
pub start_idle_lem :
    (interval now id : ℕ) (info : ConnectionInfo) (p : ConnectionPool)
    → ((start_idle interval now id info p).0.address ≡ info.address)
      × ((start_idle interval now id info p).0.active ≡ info.active)
unfolding start_idle
start_idle_lem interval now id info p = ground arith

module _ (p : ConnectionPool) (k : IsPool p) where
  -- A pool with one connection changed, one list changed, and any timer.
  abbrev changed : ℕ → ConnectionInfo → ConnectionInfo → List ℕ → Timer ℕ → ConnectionPool
  changed id info info' ids timer = record p {
    infos = put p.infos id (some info');
    connection_map = put p.connection_map info.address (some ids);
    timer = timer;
  }

  changed-IsPool :
      (id : ℕ) (info info' : ConnectionInfo) (ids : List ℕ) (timer : Timer ℕ)
      → p.infos id ≡ some info
      → All (IsIdle (put p.infos id (some info')) info.address) ids
      → Distinct ids
      → IsPool (changed id info info' ids timer)
  changed-IsPool id info info' ids timer e h d = record {
    counted = count_stays p k id info e info';
    word = k.word;
    limit = k.limit;
    unused = unused_put p k id info e (some info');
    idle = changed_Lists p k id info e (some info') ids h d;
  }

  attach_idle-Keeps :
      (address id : ℕ) (rest : List ℕ)
      → p.connection_map address ≡ some (id ∷ rest)
      → Keeps (attach_idle address id rest p)
  unfolding attach_idle activate
  attach_idle-Keeps address id rest m =
      let h = k.idle address (id ∷ rest) m in
      let info = h.0.0.0 in
      let e : p.infos id ≡ some info = h.0.0.1 in
      let a : info.address ≡ address = h.0.0.2 in
      rw (e, attach_idle)
        (subst
          (λ q. IsPool (record p {
            infos = put p.infos id (some (record info { active = true }));
            connection_map = put p.connection_map q (some rest);
            timer = clear info.idle_timer_id p.timer;
          }))
          a
          (changed-IsPool id info (record info { active = true }) rest _ e
            (subst
              (λ q. All (IsIdle (put p.infos id (some (record info { active = true }))) q) rest)
              (sym a) (idle-put p.infos address id _ rest h.0.1 h.1.0))
            h.1.1))

  -- A new connection that is in use.
  new-IsPool :
      (a b : ConnectionInfo)
      → p.connection_count < p.max_connection
      → IsPool (record p {
        connection_count = u32 (p.connection_count + 1);
        infos = put (put p.infos p.next_info (some a)) p.next_info (some b);
        next_info = suc p.next_info;
      })
  unfolding sum_below
  new-IsPool a b l =
      let n = p.next_info in
      let v = put p.infos n (some a) in
      let none_ = k.unused n (omega arith) in
      let same =
        sum_below-ext n (λ i. live (put v n (some b) i)) (λ i. live (p.infos i))
          (λ i h. ap live (
            put_other v n i (some b) (λ q. absurd (omega arith))
            ∙ put_other p.infos n i (some a) (λ q. absurd (omega arith)))) in
      let one : live (put v n (some b) n) ≡ 1 = ap live (put_same v n (some b)) in
      record {
        counted = omega (arith, same, one, k.counted, l, k.limit);
        word = omega (arith, l, k.limit);
        limit = k.limit;
        unused = λ i h.
            put_other v n i (some b) (λ q. absurd (omega arith))
            ∙ put_other p.infos n i (some a) (λ q. absurd (omega arith))
            ∙ k.unused i (omega arith);
        idle = λ address ids m.
            let h = k.idle address ids m in
            let o =
              idle-Others p.infos address n ids (λ info e q f. ground (arith, none_, e)) h.0 in
            (idle-put v address n _ ids (idle-put p.infos address n _ ids h.0 o) o, h.1);
      }

  attach_new-Keeps : (address garbage : ℕ) → Keeps (attach_new address garbage p)
  unfolding attach_new new_conn_info activate
  attach_new-Keeps address garbage = elim (Bool-cases (leb p.max_connection p.connection_count)) [
    | inl t ↦ rw (t, attach_new, new_conn_info) k
    | inr t ↦ rw (t, attach_new, new_conn_info) (new-IsPool _ _ (ground (arith, t)))
  ]

  pub attach-Keeps : (address garbage : ℕ) → Keeps (attach address garbage p)
  unfolding attach
  attach-Keeps address garbage = elim (Option-cases (p.connection_map address)) [
    | inl e ↦ rw (e, attach) (attach_new-Keeps address garbage)
    | inr (ids, e) ↦ rw (e, attach) (lists ids e)
  ]
    where
      lists :
          (ids : List ℕ)
          → p.connection_map address ≡ some ids
          → Keeps (elim ids [
            | [] ↦ attach_new address garbage p
            | id ∷ rest ↦ attach_idle address id rest p
          ])
      lists [] e = attach_new-Keeps address garbage
      lists (id ∷ rest) e = attach_idle-Keeps address id rest e

  push-idle :
      (id : ℕ) (info info' : ConnectionInfo)
      → p.infos id ≡ some info
      → info.active ≡ true
      → info'.address ≡ info.address
      → info'.active ≡ false
      → All
          (IsIdle (put p.infos id (some info')) info.address)
          (push_idle id (p.connection_map info.address))
        × Distinct (push_idle id (p.connection_map info.address))
  unfolding push_idle
  push-idle id info info' e used a free = elim (Option-cases (p.connection_map info.address)) [
    | inl m ↦ rw (m, push_idle) ((new, tt), (tt, tt))
    | inr (ids, m) ↦
        let h = k.idle info.address ids m in
        let o =
          idle-Others p.infos info.address id ids
            (λ i e' q f. let s = same_active p.infos id info i e e' in ground (arith, s, used, f))
            h.0 in
        rw (m, push_idle) ((new, idle-put p.infos info.address id (some info') ids h.0 o), (o, h.1))
  ]
    where
      new : IsIdle (put p.infos id (some info')) info.address id
      new = (info', put_same p.infos id (some info'), a, free)

  pub detach-Keeps :
      (interval now id : ℕ) (info : ConnectionInfo)
      → p.infos id ≡ some info
      → Keeps (detach interval now id p)
  unfolding detach
  detach-Keeps interval now id info e = elim (Bool-cases info.active) [
    | inl t ↦
        let r = start_idle interval now id (record info { active = false }) p in
        let l = start_idle_lem interval now id (record info { active = false }) p in
        let h = push-idle id info r.0 e t l.0 l.1 in
        rw (e, detach) (rw t (changed-IsPool id info r.0 _ r.1 e h.0 h.1))
    | inr t ↦ rw (e, detach) (rw t k)
  ]

  -- Erase of a connection that is in use.
  pub erase-Keeps :
      (id : ℕ) (info : ConnectionInfo)
      → p.infos id ≡ some info
      → info.active ≡ true
      → Keeps (erase id p)
  unfolding erase
  erase-Keeps id info e used =
      let n = count_goes p k id info e in
      rw (e, erase)
        (record {
          counted = omega (arith, n, k.word);
          word = omega arith;
          limit = k.limit;
          unused = unused_put p k id info e none;
          idle = absent_Lists p k id none (λ i e'. sym (same_active p.infos id info i e e') ∙ used);
        })

  -- What is left of a list when one is taken out.
  remove_idle-Others : (id j : ℕ) (ids : List ℕ) → Others j ids → Others j (remove_idle id ids)
  unfolding remove_idle
  remove_idle-Others id j [] o = tt
  remove_idle-Others id j (i ∷ ids) o = elim (Bool-cases (i == id)) [
    | inl t ↦ rw (t, remove_idle) o.1
    | inr t ↦ rw (t, remove_idle) (o.0, remove_idle-Others id j ids o.1)
  ]

  remove_idle-Distinct :
      (id : ℕ) (ids : List ℕ)
      → Distinct ids
      → Distinct (remove_idle id ids) × Others id (remove_idle id ids)
  unfolding remove_idle
  remove_idle-Distinct id [] d = (tt, tt)
  remove_idle-Distinct id (i ∷ ids) d = elim (Bool-cases (i == id)) [
    | inl t ↦
        rw (t, remove_idle)
          (d.1, subst (λ q. Others q ids) (let q : i ≡ id = ground (arith, t) in q) d.0)
    | inr t ↦
        let h = remove_idle-Distinct id ids d.1 in
        rw (t, remove_idle) ((remove_idle-Others id i ids d.0, h.0), (ground (arith, t), h.1))
  ]

  remove_idle-All :
      (address id : ℕ) (ids : List ℕ)
      → All (IsIdle p.infos address) ids
      → All (IsIdle p.infos address) (remove_idle id ids)
  unfolding remove_idle
  remove_idle-All address id [] h = tt
  remove_idle-All address id (i ∷ ids) h = elim (Bool-cases (i == id)) [
    | inl t ↦ rw (t, remove_idle) h.1
    | inr t ↦ rw (t, remove_idle) (h.0, remove_idle-All address id ids h.1)
  ]

  -- The timeout of a connection that is in the list of its address.
  pub on_timeout-Keeps :
      (id : ℕ) (info : ConnectionInfo) (ids : List ℕ)
      → p.infos id ≡ some info
      → p.connection_map info.address ≡ some ids
      → Keeps (on_timeout id p)
  unfolding on_timeout
  on_timeout-Keeps id info ids e m =
      let n = count_goes p k id info e in
      let old = k.idle info.address ids m in
      let d = remove_idle-Distinct id ids old.1 in
      let t : ltb 0 p.connection_count ≡ true = ground (arith, n) in
      rw (e, on_timeout)
        (rw (m, t)
          (record {
            counted = omega (arith, n);
            word = omega (arith, k.word);
            limit = k.limit;
            unused = unused_put p k id info e none;
            idle =
                changed_Lists p k id info e none (remove_idle id ids)
                  (idle-put p.infos info.address id none (remove_idle id ids)
                    (remove_idle-All info.address id ids old.0) d.1)
                  d.0;
          }))
