-- ===== src/NetMonitor/Device.antt =====
-- `get_egress_ingress` of rust_http_proxy/src/linux_monitor.rs: the sums of the interfaces' counters
-- in the text of `/proc/net/dev`.
pub mod Printed
pub mod Sums
use rust_http_proxy.Common.{
  ℕ, ◌+◌, ◌%◌, Bool, true, false, any, if◌then◌else◌, ◌==◌, Option, none, some, List, [], ◌∷◌,
  length, ◌≡◌, refl,
}
use rust_http_proxy.Common.Bytes.{Bytes, codes, starts_with, split}
use rust_http_proxy.Common.Bytes.Search.{split_whitespace}
use rust_http_proxy.Common.Numbers.{u64_mod, u64_max, parse_uint}

-- `IGNORED_INTERFACES`
abbrev pub ignored_interfaces : List Bytes
ignored_interfaces =
    codes "lo"
    ∷ codes "podman"
    ∷ codes "veth"
    ∷ codes "flannel"
    ∷ codes "cni0"
    ∷ codes "utun"
    ∷ codes "docker"
    ∷ []

unfoldable pub is_ignored : Bytes → Bool
unfolding starts_with
is_ignored interface = any (λ ignored. starts_with interface ignored) ignored_interfaces

-- `replace("\r\n", "\n")`: a `\r` in front of a `\n` goes.
unfoldable pub crlf_to_lf : Bytes → Bytes
unfolding starts_with
crlf_to_lf [] = []
crlf_to_lf (a ∷ s) =
    let rest = crlf_to_lf s in
    if a == 13 then (if starts_with s (10 ∷ []) then rest else a ∷ rest) else a ∷ rest

abbrev pub number_or_zero : Option ℕ → ℕ
number_or_zero none = 0
number_or_zero (some n) = n

-- `array.get(i).unwrap_or(&"")`
abbrev pub nth_or_empty : ℕ → List Bytes → Bytes
nth_or_empty i [] = []
nth_or_empty Prim.Native.Nat.zero (s ∷ ss) = s
nth_or_empty (Prim.Native.Nat.suc i) (s ∷ ss) = nth_or_empty i ss

-- `parse::<u64>().unwrap_or(0)`
abbrev pub counter_at : ℕ → List Bytes → ℕ
counter_at i array = number_or_zero (parse_uint u64_max (nth_or_empty i array))

-- The sums after a line; they wrap in a release build.
unfoldable pub add_line : List Bytes → ℕ × ℕ → ℕ × ℕ
unfolding is_ignored parse_uint
add_line array (egress, ingress) =
    if length array == 17
    then (if is_ignored (nth_or_empty 0 array)
        then (egress, ingress)
        else ((egress + counter_at 9 array) % u64_mod, (ingress + counter_at 1 array) % u64_mod))
    else (egress, ingress)

unfoldable pub add_lines : List Bytes → ℕ × ℕ → ℕ × ℕ
unfolding add_line split_whitespace
add_lines [] sums = sums
add_lines (str ∷ strs) sums = add_lines strs (add_line (split_whitespace str) sums)

-- `content` is the text of the file, if it can be read.
unfoldable pub get_egress_ingress : Option Bytes → ℕ × ℕ
unfolding add_lines split crlf_to_lf
get_egress_ingress none = (0, 0)
get_egress_ingress (some content) = add_lines (split 10 (crlf_to_lf content)) (0, 0)

device_test :
    get_egress_ingress (some (codes "face bytes\n ens5: 100 1 2 3 4 5 6 7 30 1 2 3 4 5 6 7\n"))
    ≡ (30, 100)
unfolding get_egress_ingress
device_test = refl
