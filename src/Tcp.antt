-- ===== src/Tcp.antt =====
-- include/TcpServer.hpp, include/TcpClient.hpp and include/KeepConnectClient.hpp: the cache of what
-- a connection has received and the handlers of its events, with the policy of reconnecting.
--
-- What a handler does to the socket, the scheduler, the timers and the user's class is the list of
-- its actions, in their order. `received` is what recvmsg gives: `none` where it fails. The user's
-- OnMessage is the position to which it has read when it returns; it does not disconnect the
-- channel itself.
pub mod Stream
pub mod Reconnect
mod Tests
use libsimplesvr.Base.{
  ℕ, zero, suc, ◌+◌, ◌-◌, ◌*◌, ◌/◌, ◌%◌, ◌^◌, Bool, true, false, not, ◌&&◌, Option, none, some,
  List, [], ◌∷◌, ◌++◌, ltb, leb, ◌==◌, if◌then◌else◌, u32, sub32, length, take, drop,
}
use libsimplesvr.IoBuffer.Buffer.{splice}

-- TcpChannelCache.
pub record Cache : Type 0 where
  pub cache_available_size : ℕ
  pub package_cache : List ℕ

-- Timer<void> and Timer<void, TimerInterval>, which are one timer only where TimerInterval is the default.
pub data TimerType : Type 0 where
  default_timer interval_timer : TimerType

pub data Action : Type 0 where
  connected disconnected failed timed_out : Action
  message : List ℕ → Action
  unregisters updates shuts_down closes deletes : Action
  clears_timer : TimerType → ℕ → Action
  sets_timer : TimerType → ℕ → Action
  throws_full throws_recv : Action

-- The bytes in the cache.
abbrev pub contents : Cache → List ℕ
contents c = take c.cache_available_size c.package_cache

-- recvmsg into the rest of the cache.
abbrev pub receive : List ℕ → Cache → Cache
receive bytes c = record {
  cache_available_size = c.cache_available_size + length bytes;
  package_cache = splice c.cache_available_size bytes c.package_cache;
}

-- After OnMessage: what was not read moves to the front.
unfoldable pub settle : ℕ → Cache → Cache
settle position c =
    let left = c.cache_available_size - position in
    record {
      cache_available_size = left;
      package_cache =
          if ltb 0 position && ltb 0 left
          then splice 0 (take left (drop position c.package_cache)) c.package_cache
          else c.package_cache;
    }

-- OnReadable of all three classes. `lost` is what the class does where the cache is full or the
-- peer has closed; the result holds whether that was done.
unfoldable pub on_readable :
    (List ℕ → ℕ) → ℕ → List Action → Option (List ℕ) → Cache → Cache × List Action × Bool
on_readable on_message cache_size lost received c =
    if leb cache_size c.cache_available_size
    then (c, lost ++ throws_full ∷ [], true)
    else elim received [
      | none ↦ (c, throws_recv ∷ [], false)
      | some bytes ↦
          if length bytes == 0
          then (c, lost, true)
          else (let c' = receive bytes c in
              (settle (on_message (contents c')) c', message (contents c') ∷ [], false))
    ]

-- TcpServer::DisconnectClient, and what OnReadable does itself where the peer has closed.
abbrev pub disconnect_client : List Action
disconnect_client = disconnected ∷ unregisters ∷ shuts_down ∷ closes ∷ deletes ∷ []

-- TcpServer::OnReadable and OnErrorable.
unfoldable pub server_on_readable :
    (List ℕ → ℕ) → ℕ → Option (List ℕ) → Cache → Cache × List Action × Bool
server_on_readable on_message cache_size received c =
    on_readable on_message cache_size disconnect_client received c

abbrev pub server_on_errorable : List Action
server_on_errorable = failed ∷ disconnect_client

-- TcpClient, with the socket that it holds or -1.
pub record TcpClient : Type 0 where
  pub socket : Option ℕ
  pub async_connect_timer_id : ℕ
  pub cache : Cache

-- Disconnect, where `startup` is Pool::Instance().IsStartup().
unfoldable pub disconnect : Bool → TcpClient → TcpClient × List Action
disconnect startup client =
    let id = client.async_connect_timer_id in
    (
      record client { socket = none; async_connect_timer_id = 0 },
      (if id == 0 then [] else clears_timer default_timer id ∷ [])
          ++ (disconnected ∷ (if startup then unregisters ∷ [] else []))
          ++ (shuts_down ∷ closes ∷ []),
    )

-- OnReadable.
unfoldable pub client_on_readable :
    (List ℕ → ℕ) → ℕ → Bool → Option (List ℕ) → TcpClient → TcpClient × List Action
client_on_readable on_message cache_size startup received client =
    let (gone, lost) = disconnect startup client in
    let (cache, actions, is_lost) = on_readable on_message cache_size lost received client.cache in
    (if is_lost then gone else record client { cache = cache }, actions)

-- OnWriteable, where `fine` is whether SO_ERROR is read and is 0.
pub client_on_writeable : Bool → Bool → TcpClient → TcpClient × List Action
client_on_writeable startup fine client =
    if fine
    then (
      record client { async_connect_timer_id = 0 },
      clears_timer default_timer client.async_connect_timer_id ∷ connected ∷ updates ∷ [],
    )
    else (let (gone, lost) = disconnect startup client in (gone, timed_out ∷ lost))

-- OnErrorable and OnAsyncConnectTimout.
pub client_on_errorable : Bool → TcpClient → TcpClient × List Action
client_on_errorable startup client =
    let (gone, lost) = disconnect startup client in (gone, failed ∷ lost)

pub on_async_connect_timout : Bool → TcpClient → TcpClient × List Action
on_async_connect_timout startup client =
    let (gone, lost) = disconnect startup (record client { async_connect_timer_id = 0 }) in
    (gone, timed_out ∷ lost)

-- KeepConnectPolicy: OnConnected, OnDisconnected, and OnError and OnTimeout, which are the same.
pub policy_on_connected : ℕ → ℕ → ℕ
policy_on_connected connect_timeout timeout = connect_timeout

abbrev pub policy_on_disconnected : ℕ → ℕ
policy_on_disconnected timeout = 0

unfoldable pub policy_on_error : ℕ → ℕ → ℕ → ℕ
policy_on_error max_reconnect_interval connect_timeout timeout =
    if timeout == 0
    then connect_timeout
    else (let doubled = u32 (timeout * 2) in
        if ltb max_reconnect_interval doubled then max_reconnect_interval else doubled)

-- KeepConnectClient. `m_TimeoutID` is the timer that was set last.
pub record KeepConnectClient : Type 0 where
  pub client : TcpClient
  pub policy : ℕ
  pub timeout_id : ℕ

-- The handlers, with the id that SetTimeout returns. `m_dwAvailableSize` and `m_cPackageCache`, which
-- OnReadable names and no class declares, are taken for the cache of the channel, as in TcpClient.
module _ (max_reconnect_interval connect_timeout : ℕ) (startup : Bool) where
  unfoldable pub keep_on_readable :
      (List ℕ → ℕ) → ℕ → ℕ → Option (List ℕ) → KeepConnectClient → KeepConnectClient × List Action
  keep_on_readable on_message cache_size new_id received keep =
      let (gone, lost) = disconnect startup keep.client in
      let timeout = policy_on_disconnected keep.policy in
      let (cache, actions, is_lost) =
        on_readable on_message cache_size (lost ++ sets_timer interval_timer timeout ∷ []) received
          keep.client.cache in
      (
        if is_lost
            then record { client = gone; policy = timeout; timeout_id = new_id }
            else record keep { client = record keep.client { cache = cache } },
        actions,
      )

  unfoldable pub keep_on_errorable : ℕ → KeepConnectClient → KeepConnectClient × List Action
  keep_on_errorable new_id keep =
      let (gone, lost) = disconnect startup keep.client in
      let timeout = policy_on_error max_reconnect_interval connect_timeout keep.policy in
      (
        record { client = gone; policy = timeout; timeout_id = new_id },
        failed
            ∷ (lost
                ++ clears_timer interval_timer keep.timeout_id
                  ∷ sets_timer default_timer timeout
                  ∷ []),
      )

  -- OnConnectTimeout, where `is_connected` is IsConnected() and `reconnects` what Reconnect() does:
  -- the client after it, its actions, and whether it returned 0.
  unfoldable pub on_connect_timeout :
      Bool
      → (TcpClient → TcpClient × List Action × Bool)
      → ℕ
      → KeepConnectClient
      → KeepConnectClient × List Action
  on_connect_timeout is_connected reconnects new_id keep =
      let (client, actions, done) = reconnects keep.client in
      let timeout = policy_on_error max_reconnect_interval connect_timeout keep.policy in
      if is_connected
      then (keep, [])
      else if done
      then (record keep { client = client }, actions)
      else (
        record { client = client; policy = timeout; timeout_id = new_id },
        actions ++ sets_timer interval_timer timeout ∷ [],
      )
