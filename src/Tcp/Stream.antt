-- ===== src/Tcp/Stream.antt =====
-- The bytes of a connection (OnReadable of include/TcpServer.hpp, include/TcpClient.hpp and
-- include/KeepConnectClient.hpp) from the socket to OnMessage.
use mathlib.Core.List.{append_assoc}
use libsimplesvr.Base.{
  ℕ, ◌+◌, ◌-◌, ◌<◌, ◌≤◌, ◌≡◌, ◌⊎◌, refl, sym, ap, ap₂, ◌∙◌, inl, inr, false, ◌&&◌, some, List, [],
  ◌∷◌, ◌++◌, ltb, leb, ◌==◌, length, take, drop, arith, Bool-cases, take-append_eq,
  take-append-drop, length-append, length-take, length-drop, take-drop,
}
use libsimplesvr.IoBuffer.Buffer.{splice}
use libsimplesvr.IoBuffer.Buffer.Memory.{length-splice}
use libsimplesvr.Tcp.{
  Cache, Action, message, contents, receive, settle, on_readable, server_on_readable,
  disconnect_client,
}

pub record IsCache (size : ℕ) (c : Cache) : Type 0 where
  pub sized : length c.package_cache ≡ size
  pub inside : c.cache_available_size ≤ size

module _ {size : ℕ} {c : Cache} (v : IsCache size c) where
  receive-contents :
      (bytes : List ℕ)
      → c.cache_available_size + length bytes ≤ size
      → contents (receive bytes c) ≡ contents c ++ bytes
  unfolding splice
  receive-contents bytes fits =
      let n = c.cache_available_size in
      let front = take n c.package_cache in
      let back = drop (n + length bytes) c.package_cache in
      let e : n + length bytes ≡ length (front ++ bytes) =
        omega
          (arith, length-append front bytes, length-take n c.package_cache, v.sized, v.inside) in
      ap (take (n + length bytes)) (sym (append_assoc front bytes back))
      ∙ take-append_eq (n + length bytes) (front ++ bytes) back e

  receive-IsCache :
      (bytes : List ℕ)
      → c.cache_available_size + length bytes ≤ size
      → IsCache size (receive bytes c)
  receive-IsCache bytes fits = record {
    sized =
        length-splice c.cache_available_size bytes c.package_cache (omega (arith, v.sized))
        ∙ v.sized;
    inside = fits;
  }

  length-contents : length (contents c) ≡ c.cache_available_size
  length-contents =
      omega (arith, length-take c.cache_available_size c.package_cache, v.sized, v.inside)

  settle-IsCache : (p : ℕ) → IsCache size (settle p c)
  unfolding settle
  settle-IsCache p =
      let left = c.cache_available_size - p in
      let moved = take left (drop p c.package_cache) in
      let l = length-take left (drop p c.package_cache) in
      elim (Bool-cases (ltb 0 p && ltb 0 left)) [
        | inl t ↦ rw t (record {
          sized =
              length-splice 0 moved c.package_cache (omega (arith, l, v.sized, v.inside)) ∙ v.sized;
          inside = omega (arith, v.inside);
        })
        | inr t ↦ rw t (record { sized = v.sized; inside = omega (arith, v.inside) })
      ]

  settle-contents :
      (p : ℕ) → p ≤ c.cache_available_size → contents (settle p c) ≡ drop p (contents c)
  unfolding settle splice
  settle-contents p le =
      let n = c.cache_available_size in
      let left = n - p in
      let moved = take left (drop p c.package_cache) in
      let whole : p + left ≡ n = omega arith in
      let l : left ≡ length moved = omega (
        arith,
        length-take left (drop p c.package_cache),
        length-drop p c.package_cache,
        v.sized,
        v.inside,
      ) in
      let to : moved ≡ drop p (contents c) =
        take-drop left p c.package_cache ∙ ap (λ k. drop p (take k c.package_cache)) whole in
      elim (Bool-cases (ltb 0 p && ltb 0 left)) [
        | inl t ↦
            rw (t, settle)
              (take-append_eq left moved (drop (0 + length moved) c.package_cache) l ∙ to)
        | inr t ↦ rw (t, settle) (unmoved p left (ground arith) ∙ to)
      ]
    where
      unmoved :
          (q k : ℕ) → (q ≡ 0) ⊎ (k ≡ 0) → take k c.package_cache ≡ take k (drop q c.package_cache)
      unmoved q k (inl e) = rw e refl
      unmoved q k (inr e) = rw e refl

-- The message that OnMessage is given, and what it has read of it.
abbrev pub seen : List ℕ → Cache → List ℕ
seen bytes c = contents c ++ bytes

module _ (on_message : List ℕ → ℕ) (size : ℕ) {c : Cache} (v : IsCache size c) where
  -- OnReadable where bytes have come: OnMessage sees what was left and the bytes after it, and what
  -- it does not read is what is left.
  on_readable-seen :
      (lost : List Action) (bytes : List ℕ)
      → c.cache_available_size < size
      → 0 < length bytes
      → c.cache_available_size + length bytes ≤ size
      → on_message (seen bytes c) ≤ length (seen bytes c)
      → let r = on_readable on_message size lost (some bytes) c in
        (contents r.0 ≡ drop (on_message (seen bytes c)) (seen bytes c))
        × (r.1 ≡ message (seen bytes c) ∷ [])
        × (r.2 ≡ false)
        × IsCache size r.0
  unfolding on_readable
  on_readable-seen lost bytes vacant some_bytes fits reads =
      let e : leb size c.cache_available_size ≡ false = ground arith in
      let f : (length bytes == 0) ≡ false = ground arith in
      let g = receive-contents v bytes fits in
      let w = receive-IsCache v bytes fits in
      let p = on_message (contents (receive bytes c)) in
      let q : p ≡ on_message (seen bytes c) = ap on_message g in
      rw (e, f)
        (
          settle-contents w p
                (omega (arith, q, reads, length-append (contents c) bytes, length-contents v))
              ∙ ap₂ drop q g,
          ap (λ m. message m ∷ []) g,
          refl,
          settle-IsCache w p,
        )

-- A connection from its begin: the cache, all bytes that were received, and all that OnMessage has
-- read. OnMessage may be another function each time.
pub data Fed (size : ℕ) : Cache → List ℕ → List ℕ → Type 0 where
  starts : (c : Cache) → IsCache size c → c.cache_available_size ≡ 0 → Fed size c [] []
  reads :
      (c : Cache) (received used : List ℕ) (on_message : List ℕ → ℕ) (bytes : List ℕ)
      → Fed size c received used
      → c.cache_available_size < size
      → 0 < length bytes
      → c.cache_available_size + length bytes ≤ size
      → on_message (seen bytes c) ≤ length (seen bytes c)
      → Fed size
          (server_on_readable on_message size (some bytes) c).0
          (received ++ bytes)
          (used ++ take (on_message (seen bytes c)) (seen bytes c))

-- At any time of a connection, what OnMessage has read and then what is in the cache are the bytes
-- that were received, in order, and the cache does not overflow.
pub Fed-stream :
    (size : ℕ) (c : Cache) (received used : List ℕ)
    → Fed size c received used
    → (used ++ contents c ≡ received) × IsCache size c
unfolding server_on_readable
Fed-stream size _ _ _ (starts c v e) = (rw e refl, v)
Fed-stream size _ _ _ (reads c received used on_message bytes h vacant some_bytes fits small) =
    let (same, v) = Fed-stream size c received used h in
    let m = seen bytes c in
    let p = on_message m in
    let r =
      on_readable-seen on_message size v disconnect_client bytes vacant some_bytes fits small in
    (
      ap (λ xs. (used ++ take p m) ++ xs) r.0
          ∙ append_assoc used (take p m) (drop p m)
          ∙ ap (λ xs. used ++ xs) (take-append-drop p m)
          ∙ sym (append_assoc used (contents c) bytes)
          ∙ ap (λ xs. xs ++ bytes) same,
      r.3,
    )
