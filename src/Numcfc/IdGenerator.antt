-- ===== src/Numcfc/IdGenerator.antt =====
-- numcfc/IdGenerator.cpp, off Windows. What the system answers is a parameter.
pub mod Distinct
use numcore_messaging_librar.Common.{
  ℕ, Bool, true, false, not, List, [], ◌∷◌, ◌++◌, Option, none, some, Bytes, codes, bytes_eq,
  if◌then◌else◌,
}
use numcore_messaging_librar.Decimal.{decimal}
use numcore_messaging_librar.Outcome.{Outcome, done, ◌>>=◌}
use numcore_messaging_librar.Numcfc.Time.{Time, to_extended_iso}

-- `gethostname`: the name, or `errno`.
pub data Answer : Type 0 where
  named : Bytes → Answer
  failed : ℕ → Answer

unfoldable pub get_hostname : Answer → Bytes
unfolding decimal
get_hostname (named name) = name
get_hostname (failed errno) = codes "error_" ++ decimal errno

-- `IdGenerator::GenerateId`, with the current time and what `rand` returns.
unfoldable pub generate_timed_id : Time → Answer → ℕ → Outcome Bytes
unfolding to_extended_iso get_hostname decimal
generate_timed_id now host r = do
  text ← to_extended_iso now
  done (text ++ (b'/' ∷ (get_hostname host ++ (b'/' ∷ decimal r))))

-- An entry of the list that `getifaddrs` makes, with the text of `inet_ntop`.
pub data Interface : Type 0 where
  no_address other_family : Interface
  ip_v4 ip_v6 : Bytes → Interface

unfoldable pub get_ip_addresses : List Interface → List Bytes
get_ip_addresses [] = []
get_ip_addresses (no_address ∷ rest) = get_ip_addresses rest
get_ip_addresses (other_family ∷ rest) = get_ip_addresses rest
get_ip_addresses (ip_v4 address ∷ rest) =
    let others = get_ip_addresses rest in
    if not (bytes_eq address (codes "127.0.0.1")) then address ∷ others else others
get_ip_addresses (ip_v6 address ∷ rest) =
    let others = get_ip_addresses rest in
    if not (bytes_eq address (codes "::1")) then address ∷ others else others

-- `getcwd` with a buffer of 1023 bytes.
unfoldable pub get_working_directory : Option Bytes → Bytes
get_working_directory none = codes "getcwd() returned NULL!"
get_working_directory (some path) = path

-- The loop over the addresses; `first_ip_address` as in the source.
unfoldable pub join_addresses : Bool → List Bytes → Bytes
join_addresses first_ip_address [] = []
join_addresses first_ip_address (ip_address ∷ rest) =
    (if first_ip_address then [] else b',' ∷ []) ++ (ip_address ++ join_addresses false rest)

unfoldable pub generate_id : Bytes → List Bytes → Bytes → Bytes
unfolding join_addresses
generate_id hostname ip_addresses working_directory =
    codes "hostname:"
    ++ (hostname
        ++ (codes ",ipAddresses:["
            ++ (join_addresses true ip_addresses
                ++ (codes "]" ++ (codes ",workingDirectory:" ++ working_directory)))))
