-- ===== src/LoadBalance.antt =====
-- include/LoadBalance.hpp: the service points, the policy that adapts their quotas, and Route.
--
-- An address is the number that its sixteen bytes are in big-endian order, so that the order of
-- MemCompare is the descending order of numbers. `m_stServicesMap` is the list of its points in
-- that order; a point's key is its `stAddress`. The rates of RoutePolicy are compared as fractions
-- of integers, which the comparisons of the doubles agree with for counts of 32 bits.
pub mod Totals
pub mod Rounds
pub mod Balance
pub mod Picks
pub mod Policy
mod Tests
use libsimplesvr.Base.{
  ℕ, ◌+◌, ◌-◌, ◌*◌, ◌/◌, ◌%◌, ◌^◌, Bool, true, false, ◌||◌, not, Option, none, some, List, [], ◌∷◌,
  ltb, leb, ◌==◌, if◌then◌else◌, u32, sub32, length, map,
}
use libsimplesvr.Base.Sums.{weight}

pub record ServicePoint : Type 0 where
  pub address : ℕ
  pub send_count : ℕ
  pub recv_count : ℕ
  pub max_quotas : ℕ
  pub current_quotas : ℕ
  pub real_quotas : ℕ

-- RoutePolicy.
abbrev pub reset_time : ℕ
reset_time = 10

-- point.dwCurrentQuotas + point.dwMaxQuotas / part, as a uint32_t, with the maximum as the limit.
abbrev pub grown : ℕ → ServicePoint → ℕ
grown part point =
    let quotas = u32 (point.current_quotas + point.max_quotas / part) in
    if ltb point.max_quotas quotas then point.max_quotas else quotas

-- The branches on dLostRate, for a send count that is not 0: above 3 percent, below 0.05 percent.
unfoldable pub adapted : ServicePoint → ℕ
adapted point =
    let lost = sub32 point.send_count point.recv_count in
    if ltb (3 * point.send_count) (100 * lost)
    then 1
    else if ltb (10000 * lost) (5 * point.send_count)
    then grown 5 point
    else grown 20 point

unfoldable pub reset : ServicePoint → ServicePoint
reset point = record point {
  current_quotas = if point.send_count == 0 then point.current_quotas else adapted point;
  recv_count = 0;
  send_count = 0;
}

pub record LoadBalance : Type 0 where
  pub total_quotas : ℕ
  pub last_timestamp : ℕ
  pub services : List ServicePoint

-- m_stServicesMap: find, insert (which keeps a point that is there) and erase.
pub find_point : ℕ → List ServicePoint → Option ServicePoint
find_point a [] = none
find_point a (p ∷ ps) = if p.address == a then some p else find_point a ps

pub insert_point : ServicePoint → List ServicePoint → List ServicePoint
insert_point q [] = q ∷ []
insert_point q (p ∷ ps) =
    let rest = insert_point q ps in
    if ltb p.address q.address
    then q ∷ p ∷ ps
    else if p.address == q.address
    then p ∷ ps
    else p ∷ rest

pub erase_point : ℕ → List ServicePoint → List ServicePoint
erase_point a [] = []
erase_point a (p ∷ ps) = if p.address == a then ps else p ∷ erase_point a ps

-- The point of an address is changed in place.
pub change_point : ℕ → (ServicePoint → ServicePoint) → List ServicePoint → List ServicePoint
change_point a f [] = []
change_point a f (p ∷ ps) = if p.address == a then f p ∷ ps else p ∷ change_point a f ps

-- LoadBalance(). It leaves m_LastTimestamp as the memory was.
pub load_balance : ℕ → LoadBalance
load_balance before = record { total_quotas = 0; last_timestamp = before; services = [] }

-- Clear.
pub clear : LoadBalance → LoadBalance
clear lb = record lb { total_quotas = 0; services = [] }

abbrev pub service_point : ℕ → ℕ → ServicePoint
service_point address quotas = record {
  address = address;
  send_count = 0;
  recv_count = 0;
  max_quotas = quotas;
  current_quotas = quotas;
  real_quotas = quotas;
}

-- AddServicePoint.
unfoldable pub add_service_point : ℕ → ℕ → LoadBalance → LoadBalance
add_service_point address quotas lb = record lb {
  total_quotas = u32 (lb.total_quotas + quotas);
  services = insert_point (service_point address quotas) lb.services;
}

-- LoadConfigure at the time `now`. The `entries` are those of the lines that match the expression, and
-- none where open, fstat or read fails.
unfoldable pub add_all : List (ℕ × ℕ) → LoadBalance → LoadBalance
add_all [] lb = lb
add_all ((address, quotas) ∷ entries) lb = add_all entries (add_service_point address quotas lb)

unfoldable pub load_configure : ℕ → Option (List (ℕ × ℕ)) → LoadBalance → Bool × LoadBalance
load_configure now none lb = (false, lb)
load_configure now (some entries) lb =
    let lb' = add_all entries (clear lb) in
    (not (lb'.total_quotas == 0), record lb' { last_timestamp = now })

-- The loop of Route that sets the quotas again.
pub renew : Bool → ServicePoint → ServicePoint
renew resets point =
    let point' = if resets then reset point else point in
    record point' { real_quotas = point'.current_quotas }

pub add_quotas : ℕ → List ServicePoint → ℕ
add_quotas total [] = total
add_quotas total (p ∷ ps) = add_quotas (u32 (total + p.real_quotas)) ps

unfoldable pub refresh : ℕ → LoadBalance → LoadBalance
refresh now lb =
    let resets = ltb (lb.last_timestamp + reset_time) now in
    let services = map (renew resets) lb.services in
    if (lb.total_quotas == 0) || resets
    then record {
      total_quotas = add_quotas 0 services;
      last_timestamp = if resets then now else lb.last_timestamp;
      services = services;
    }
    else lb

-- What Route does to the point that it takes.
abbrev pub take_point : ServicePoint → ServicePoint
take_point point = record point {
  send_count = u32 (point.send_count + 1);
  real_quotas = sub32 point.real_quotas 1;
}

-- The loop of Route that looks for the point of the seed.
pub pick : ℕ → List ServicePoint → Option (ℕ × List ServicePoint)
pick seed [] = none
pick seed (p ∷ ps) =
    let rest = pick (sub32 seed p.real_quotas) ps in
    if leb seed p.real_quotas
    then some (p.address, take_point p ∷ ps)
    else elim rest [ none ↦ none | some (a, ps') ↦ some (a, p ∷ ps') ]

-- Route at the time `now`: the address, where one is stored, and the state. `roll` is
-- floor((double)n * rand() / RAND_MAX).
unfoldable pub route : (ℕ → ℕ) → ℕ → LoadBalance → Option ℕ × LoadBalance
route roll now lb =
    let lb' = refresh now lb in
    elim (pick (roll (u32 (lb'.total_quotas + 1))) lb'.services) [
      | none ↦ (none, lb')
      | some (a, services) ↦
          (some a, record lb' { total_quotas = sub32 lb'.total_quotas 1; services = services })
    ]

-- EraseServicePoint, Failure and Success.
unfoldable pub erase_service_point : ℕ → LoadBalance → LoadBalance
erase_service_point a lb = elim (find_point a lb.services) [
  | none ↦ lb
  | some p ↦ record lb {
    total_quotas = sub32 lb.total_quotas p.real_quotas;
    services = erase_point a lb.services;
  }
]

unfoldable pub failure : ℕ → LoadBalance → LoadBalance
failure a lb = elim (find_point a lb.services) [
  | none ↦ lb
  | some p ↦ record lb {
    total_quotas = sub32 lb.total_quotas p.real_quotas;
    services = change_point a (λ q. record q { real_quotas = 0; current_quotas = 1 }) lb.services;
  }
]

unfoldable pub success : ℕ → LoadBalance → LoadBalance
success a lb = record lb {
  services = change_point a (λ q. record q { recv_count = u32 (q.recv_count + 1) }) lb.services;
}

-- GetSize, and GetIterator with Next: the points that are left, and the one that is copied out.
abbrev pub get_size : LoadBalance → ℕ
get_size lb = length lb.services

abbrev pub get_iterator : LoadBalance → List ServicePoint
get_iterator lb = lb.services

pub next : List ServicePoint → Option (ServicePoint × List ServicePoint)
next [] = none
next (p ∷ ps) = some (p, ps)
