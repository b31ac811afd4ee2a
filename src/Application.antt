-- ===== src/Application.antt =====
-- include/Application.hpp: the directories, names and addresses that an application asks the system for.
--
-- The system is a parameter: Disk has access and mkdir, and what readlink, open, fcntl and getifaddrs
-- give is an argument.
pub mod Dirs
pub mod Names
mod Tests
use libsimplesvr.Base.{
  ℕ, zero, suc, ◌+◌, Bool, true, false, not, ◌&&◌, Option, none, some, List, [], ◌∷◌, ◌++◌, length,
  take, drop, ◌==◌, if◌then◌else◌,
}
use libsimplesvr.Base.Int.{ℤ, negsuc}
use libsimplesvr.Configure.{Text, c_string}

-- access with F_OK, and mkdir, which gives none where it fails.
pub record Disk (D : Type 0) : Type 0 where
  pub exists : D → Text → Bool
  pub mkdir : Text → D → Option D

-- buffer[len - 1] != '/', for a path that is not empty.
unfoldable pub ends_with_slash : ℕ → Text → Bool
ends_with_slash c [] = c == 47
ends_with_slash c (d ∷ ds) = ends_with_slash d ds

module _ {D : Type 0} (disk : Disk D) where
  -- The loop, where `before` is in the buffer before i and `rest` from i on.
  unfoldable pub make_dirs : Text → Text → D → Bool × D
  make_dirs before [] d = (true, d)
  make_dirs before (c ∷ cs) d =
      if c == 47
      then if disk.exists d before
        then make_dirs (before ++ (c ∷ [])) cs d
        else elim (disk.mkdir before d) [
          | none ↦ (false, d)
          | some d' ↦ make_dirs (before ++ (c ∷ [])) cs d'
        ]
      else make_dirs (before ++ (c ∷ [])) cs d

  -- MakeDir, which reads before its buffer where the path is empty.
  unfoldable pub make_dir : Text → D → Option (Bool × D)
  make_dir [] d = none
  make_dir (c ∷ cs) d =
      some (make_dirs (c ∷ []) (if ends_with_slash c cs then cs else cs ++ (47 ∷ [])) d)

-- rfind('/') + 1, with npos + 1 for 0.
unfoldable pub behind_slash : Text → ℕ
behind_slash [] = 0
behind_slash (c ∷ cs) =
    let n = behind_slash cs in if n == 0 then if c == 47 then 1 else 0 else n + 1

-- What readlink stores in the first 259 bytes of a buffer of zeros.
abbrev pub linked : List ℕ → Text
linked target = c_string (take 259 target ++ (0 ∷ []))

-- GetName and GetRuntimePath, for what the link holds.
unfoldable pub get_name : Option (List ℕ) → Text
get_name none = []
get_name (some target) = drop (behind_slash (linked target)) (linked target)

unfoldable pub get_runtime_path : Option (List ℕ) → Text
get_runtime_path none = []
get_runtime_path (some target) = take (behind_slash (linked target)) (linked target)

-- CreatePidFile, with m_lock: what open gives, and whether fcntl takes the lock.
unfoldable pub create_pid_file : ℤ → Bool → Bool × ℤ
create_pid_file (negsuc zero) locks = (false, negsuc 0)
create_pid_file fd locks = (locks, fd)

-- An entry of getifaddrs: its family, and its address as it is in memory.
pub record IfAddr : Type 0 where
  pub family : ℕ
  pub address : ℕ

-- GetLocalIp. A failure of getifaddrs is none; PF_INET is 2.
unfoldable pub local_ips : List IfAddr → List ℕ → List ℕ
local_ips [] ips = ips
local_ips (a ∷ rest) ips =
    if a.family == 2 && (not (a.address == 0) && not (a.address == 16777343))
    then local_ips rest (ips ++ (a.address ∷ []))
    else local_ips rest ips

unfoldable pub get_local_ip : Option (List IfAddr) → List ℕ → List ℕ × ℕ
get_local_ip none ips = (ips, length ips)
get_local_ip (some addrs) ips = let r = local_ips addrs ips in (r, length r)
