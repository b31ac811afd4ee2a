-- ===== src/ConnectionPool/Attach.antt =====
-- What Attach of include/ConnectionPool.hpp gives out.
use libsimplesvr.Base.{
  ℕ, ◌+◌, ◌≤◌, ◌<◌, ◌≡◌, ◌⊎◌, inl, inr, refl, sym, ap, subst, ◌∙◌, true, false, Option, none, some,
  List, [], ◌∷◌, leb, arith, Bool-cases, Option-cases,
}
use libsimplesvr.Base.Sums.{put}
use libsimplesvr.ConnectionPool.{
  ConnectionInfo, ConnectionPool, Result, returns, faults, new_conn_info, activate, attach_new,
  attach_idle, attach, push_idle, start_idle, detach,
}
use libsimplesvr.Timer.Ops.{clear}
use libsimplesvr.ConnectionPool.Steps.{start_idle_lem}
use libsimplesvr.ConnectionPool.Keep.{IsPool, put_same}

abbrev pub NoneIdle : Option (List ℕ) → Type 0
NoneIdle none = Unit
NoneIdle (some []) = Unit
NoneIdle (some (id ∷ ids)) = ⊥

-- A connection of the address that is marked as in use.
abbrev pub InUse : ConnectionPool → ℕ → ℕ → Type 0
InUse p address id =
    (info : ConnectionInfo) × (p.infos id ≡ some info)
    × (info.address ≡ address)
    × (info.active ≡ true)

-- What Attach returns, beside the pool before and after.
abbrev pub Attached : ConnectionPool → ℕ → Result (Option ℕ) → Type 0
Attached p address faults = ⊥
Attached p address (returns none p') =
    (p' ≡ p) × (p.max_connection ≤ p.connection_count) × NoneIdle (p.connection_map address)
Attached p address (returns (some id) p') =
    InUse p' address id
    × (((rest : List ℕ) × (p.connection_map address ≡ some (id ∷ rest))
          × (p'.connection_map address ≡ some rest)
          × (p'.connection_count ≡ p.connection_count))
        ⊎ ((id ≡ p.next_info)
            × NoneIdle (p.connection_map address)
            × (p'.connection_count ≡ p.connection_count + 1)
            × (p'.connection_count ≤ p.max_connection)))

module _ (p : ConnectionPool) (k : IsPool p) (address garbage : ℕ) where
  new-Attached :
      NoneIdle (p.connection_map address) → Attached p address (attach_new address garbage p)
  unfolding attach_new new_conn_info activate
  new-Attached h = elim (Bool-cases (leb p.max_connection p.connection_count)) [
    | inl t ↦ rw (t, attach_new, new_conn_info) (refl, ground (arith, t), h)
    | inr t ↦
        let fresh : ConnectionInfo = record {
          connected = false;
          address = address;
          idle_timer_id = garbage;
          active = false;
        } in
        let l : p.connection_count < p.max_connection = ground (arith, t) in
        rw (t, attach_new, new_conn_info)
          (
            (
              _,
              put_same (put p.infos p.next_info (some fresh)) p.next_info
                  (some (record fresh { active = true })),
              refl,
              refl,
            ),
            inr (refl, h, omega (arith, l, k.limit), omega (arith, l, k.limit)),
          )
  ]

  idle-Attached :
      (id : ℕ) (rest : List ℕ)
      → p.connection_map address ≡ some (id ∷ rest)
      → Attached p address (attach_idle address id rest p)
  unfolding attach_idle activate
  idle-Attached id rest m =
      let h = (k.idle address (id ∷ rest) m).0.0 in
      rw (h.1, attach_idle)
        (
          (_, put_same p.infos id _, h.2, refl),
          inl (rest, m, put_same p.connection_map address (some rest), refl),
        )

  -- Attach gives the connection at the front of the address's list of idle ones, which leaves the
  -- list; where there is none it makes a new one and counts it, if the maximum allows, and else
  -- returns -1 and changes nothing. What it gives is a connection of the address, marked as in use.
  pub attach-Attached : Attached p address (attach address garbage p)
  unfolding attach
  attach-Attached = elim (Option-cases (p.connection_map address)) [
    | inl e ↦ rw (e, attach) (new-Attached (subst NoneIdle (sym e) tt))
    | inr (ids, e) ↦ rw (e, attach) (lists ids e)
  ]
    where
      lists :
          (ids : List ℕ)
          → p.connection_map address ≡ some ids
          → Attached p address (elim ids [
            | [] ↦ attach_new address garbage p
            | id ∷ rest ↦ attach_idle address id rest p
          ])
      lists [] e = new-Attached (subst NoneIdle (sym e) tt)
      lists (id ∷ rest) e = idle-Attached id rest e

-- A list of idle connections, where there is none an empty one.
abbrev pub list_of : Option (List ℕ) → List ℕ
list_of none = []
list_of (some ids) = ids

push_idle_lem : (id : ℕ) (m : Option (List ℕ)) → push_idle id m ≡ id ∷ list_of m
unfolding push_idle
push_idle_lem id none = refl
push_idle_lem id (some ids) = refl

-- The connection that was detached last is the one that the next Attach of its address gives, the
-- same object, and the address's list and the count are as they were before.
pub attach-detach :
    (p : ConnectionPool) (interval now id garbage : ℕ) (info : ConnectionInfo)
    → p.infos id ≡ some info
    → info.active ≡ true
    → (p' : ConnectionPool) × (p'' : ConnectionPool) × (detach interval now id p ≡ returns tt p')
      × (attach info.address garbage p' ≡ returns (some id) p'')
      × (list_of (p''.connection_map info.address) ≡ list_of (p.connection_map info.address))
      × (p''.connection_count ≡ p.connection_count)
      × InUse p'' info.address id
unfolding detach attach attach_idle activate
attach-detach p interval now id garbage info e used =
    let r = start_idle interval now id (record info { active = false }) p in
    let l = start_idle_lem interval now id (record info { active = false }) p in
    let map' =
      put p.connection_map info.address (some (push_idle id (p.connection_map info.address))) in
    let p' : ConnectionPool = record p {
      infos = put p.infos id (some r.0);
      timer = r.1;
      connection_map = map';
    } in
    let listed : map' info.address ≡ some (id ∷ list_of (p.connection_map info.address)) =
      put_same p.connection_map info.address _
      ∙ ap some (push_idle_lem id (p.connection_map info.address)) in
    let there : put p.infos id (some r.0) id ≡ some r.0 = put_same p.infos id (some r.0) in
    let p'' : ConnectionPool = record p' {
      infos = put p'.infos id (some (record r.0 { active = true }));
      connection_map = put map' info.address (some (list_of (p.connection_map info.address)));
      timer = clear r.0.idle_timer_id p'.timer;
    } in
    (
      p',
      p'',
      rw (e, detach) (rw used refl),
      rw (listed, attach) (rw (there, attach_idle) refl),
      ap list_of (put_same map' info.address (some (list_of (p.connection_map info.address)))),
      refl,
      (record r.0 { active = true }, put_same p'.infos id _, l.0, refl),
    )
