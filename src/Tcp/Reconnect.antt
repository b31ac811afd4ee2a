-- ===== src/Tcp/Reconnect.antt =====
-- KeepConnectPolicy and KeepConnectClient of include/KeepConnectClient.hpp: how long a client waits,
-- and that one that has lost its connection tries again.
use mathlib.Core.List.{append_assoc}
use libsimplesvr.Base.{
  ℕ, zero, suc, ◌*◌, ◌^◌, ◌<◌, ◌≤◌, ◌≡◌, ◌⊎◌, refl, sym, ap, inl, inr, Bool, true, false, Option,
  none, some, List, [], ◌∷◌, ◌++◌, ◌==◌, leb, u32, length, arith, Bool-cases, min,
}
use libsimplesvr.Tcp.{
  TimerType, default_timer, interval_timer, Action, sets_timer, clears_timer, failed, TcpClient,
  disconnect, on_readable, policy_on_error, policy_on_disconnected, KeepConnectClient,
  keep_on_readable, keep_on_errorable, on_connect_timeout, throws_full,
}

-- 2 ^ n.
abbrev pub doubled : ℕ → ℕ
doubled zero = 1
doubled (suc n) = 2 * doubled n

-- `n + 1` failures of a policy whose OnDisconnected was called.
unfoldable pub failures : ℕ → ℕ → ℕ → ℕ
failures max base zero = policy_on_error max base (policy_on_disconnected base)
failures max base (suc n) = policy_on_error max base (failures max base n)

scaled : (base n : ℕ) → base * doubled (suc n) ≡ 2 * (base * doubled n)
scaled base n = ground arith

scaled-pos : (base n : ℕ) → 0 < base → 0 < base * doubled n
scaled-pos base zero h = omega arith
scaled-pos base (suc n) h = omega (arith, scaled base n, scaled-pos base n h)

-- The failure after `n` others since OnDisconnected, which OnReadable calls and OnErrorable does not,
-- gives 2 ^ n times the first interval, or the limit if that is less; the interval is not 0 nor beyond
-- the limit, which has 31 bits.
pub failures_lem :
    (max base n : ℕ)
    → 0 < base
    → base ≤ max
    → max < 2 ^ 31
    → failures max base n ≡ min max (base * doubled n)
unfolding failures policy_on_error
failures_lem max base zero some_base le small = omega arith
failures_lem max base (suc n) some_base le small =
    let x = base * doubled n in
    let t = failures max base n in
    let ih : t ≡ min max x = failures_lem max base n some_base le small in
    let more : 0 < x = scaled-pos base n some_base in
    let e : base * (2 * doubled n) ≡ 2 * x = scaled base n in
    let z : (t == 0) ≡ false = ground arith in
    let w : u32 (t * 2) ≡ t * 2 = omega arith in rw (z, w) (ground arith)

-- An event of a client, with the id of the timer that is set if one is.
pub data Event : Type 0 where
  readable : (List ℕ → ℕ) → ℕ → Option (List ℕ) → Event
  errorable : Event
  times_out : Bool → (TcpClient → TcpClient × List Action × Bool) → Event

-- The connection is given up; a timer of the type was set for the policy's time, and its id `id` is the
-- one that the client remembers.
pub record IsArmed (timer : TimerType) (id : ℕ) (r : KeepConnectClient × List Action) : Type 0 where
  pub remembered : r.0.timeout_id ≡ id
  pub before : List Action
  pub after : List Action
  pub set : r.1 ≡ before ++ (sets_timer timer r.0.policy ∷ after)

-- The socket is given up too.
abbrev pub IsLost : TimerType → ℕ → KeepConnectClient × List Action → Type 0
IsLost timer id r = (r.0.client.socket ≡ none) × IsArmed timer id r

-- The cache is full, or the peer has closed.
abbrev pub Loses : ℕ → Option (List ℕ) → KeepConnectClient → Type 0
Loses cache_size received keep =
    (cache_size ≤ keep.client.cache.cache_available_size) ⊎ (received ≡ some [])

-- There is room, and recvmsg fails or gives some bytes.
abbrev pub Stays : ℕ → Option (List ℕ) → KeepConnectClient → Type 0
Stays cache_size received keep =
    (keep.client.cache.cache_available_size < cache_size)
    × ((received ≡ none) ⊎ ((x : ℕ) × (bytes : List ℕ) × (received ≡ some (x ∷ bytes))))

-- What each event leaves.
abbrev pub Retries : ℕ → Event → KeepConnectClient → KeepConnectClient × List Action → Type 0
Retries id (readable on_message cache_size received) keep r =
    (Loses cache_size received keep × IsLost interval_timer id r)
    ⊎ (Stays cache_size received keep
        × (r.0.client.socket ≡ keep.client.socket)
        × (r.0.policy ≡ keep.policy)
        × (r.0.timeout_id ≡ keep.timeout_id))
Retries id errorable keep r = IsLost default_timer id r
Retries id (times_out is_connected reconnects) keep r =
    ((is_connected ≡ true) × (r ≡ (keep, [])))
    ⊎ ((is_connected ≡ false)
        × ((reconnects keep.client).2 ≡ true)
        × (r.0.client ≡ (reconnects keep.client).0))
    ⊎ ((is_connected ≡ false) × ((reconnects keep.client).2 ≡ false) × IsArmed interval_timer id r)

module _ (max base : ℕ) (startup : Bool) where
  unfoldable pub handle : ℕ → Event → KeepConnectClient → KeepConnectClient × List Action
  handle id (readable on_message cache_size received) keep =
      keep_on_readable max base startup on_message cache_size id received keep
  handle id errorable keep = keep_on_errorable max base startup id keep
  handle id (times_out is_connected reconnects) keep =
      on_connect_timeout max base startup is_connected reconnects id keep

  full-IsLost :
      {id : ℕ} (keep : KeepConnectClient)
      → let (gone, lost) = disconnect startup keep.client in
        IsLost interval_timer id (
          record { client = gone; policy = 0; timeout_id = id },
          (lost ++ sets_timer interval_timer 0 ∷ []) ++ throws_full ∷ [],
        )
  unfolding disconnect
  full-IsLost keep =
      let lost = (disconnect startup keep.client).1 in
      (
        refl,
        record {
          remembered = refl;
          before = lost;
          after = throws_full ∷ [];
          set = append_assoc lost (sets_timer interval_timer 0 ∷ []) (throws_full ∷ []);
        },
      )

  -- What each event does to a KeepConnectClient. OnReadable with a full cache or from a peer that has
  -- closed, and OnErrorable, give up the socket and set a timer for the time of the policy, whose id
  -- is remembered; any other OnReadable keeps the socket, the policy and the id. OnConnectTimeout of a
  -- client that is connected does nothing, and any other either has reconnected or sets such a timer
  -- again. The timer of OnErrorable is Timer<void>, the others' is Timer<void, TimerInterval>.
  pub handle-Retries :
      (id : ℕ) (event : Event) (keep : KeepConnectClient)
      → Retries id event keep (handle id event keep)
  unfolding handle keep_on_readable keep_on_errorable on_connect_timeout on_readable disconnect
  handle-Retries id (readable on_message cache_size received) keep =
      elim (Bool-cases (leb cache_size keep.client.cache.cache_available_size)) [
        | inl t ↦ rw t (inl (inl (ground (arith, t)), full-IsLost keep))
        | inr t ↦ room received (ground (arith, t)) t
      ]
    where
      room :
          (got : Option (List ℕ))
          → keep.client.cache.cache_available_size < cache_size
          → leb cache_size keep.client.cache.cache_available_size ≡ false
          → Retries id
              (readable on_message cache_size got)
              keep
              (handle id (readable on_message cache_size got) keep)
      room none l t = rw t (inr ((l, inl refl), refl, refl, refl))
      room (some []) l t = rw t (
          inl (
            inr refl,
            (
              refl,
              record {
                remembered = refl;
                before = (disconnect startup keep.client).1;
                after = [];
                set = refl;
              },
            ),
          ))
      room (some (x ∷ bytes)) l t =
          let u : (length (x ∷ bytes) == 0) ≡ false = ground arith in
          rw (t, u) (inr ((l, inr (x, bytes, refl)), refl, refl, refl))
  handle-Retries id errorable keep =
      let lost = (disconnect startup keep.client).1 in
      (
        refl,
        record {
          remembered = refl;
          before = failed ∷ (lost ++ clears_timer interval_timer keep.timeout_id ∷ []);
          after = [];
          set =
              ap (◌∷◌ failed)
                (sym (append_assoc lost (clears_timer interval_timer keep.timeout_id ∷ []) _));
        },
      )
  handle-Retries id (times_out true reconnects) keep = inl (refl, refl)
  handle-Retries id (times_out false reconnects) keep =
      elim (Bool-cases ((reconnects keep.client).2)) [
        | inl t ↦ rw t (inr (inl (refl, refl, refl)))
        | inr t ↦ rw t (
            inr (
              inr (
                refl,
                refl,
                record {
                  remembered = refl;
                  before = (reconnects keep.client).1;
                  after = [];
                  set = refl;
                },
              )))
      ]
