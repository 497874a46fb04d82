-- ===== src/LinuxPages/Parse.antt =====
-- `parse_ip_and_port` and `parse_process_info` of rust_http_proxy/src/linux_axum_handler.rs.
pub mod RoundTrip
use rust_http_proxy.Common.{
  ℕ, ◌+◌, Bool, true, false, not, ◌&&◌, if◌then◌else◌, ◌==◌, Option, none, some, List, [], ◌∷◌,
  ◌++◌, ◌≡◌, refl, take, drop, is_empty,
}
use rust_http_proxy.Common.Bytes.{Bytes, codes, starts_with, contains}
use rust_http_proxy.Common.Bytes.Search.{find_text, find_by, rfind, leave_out}
use rust_http_proxy.Common.Numbers.{u16_max, parse_uint, is_digit}

-- What the text behind a `:` says of the port, with the whole text if it says nothing.
abbrev pub with_port : Bytes → Bytes → Bytes → Bytes × ℕ
with_port whole addr text = elim (parse_uint u16_max text) [
  | none ↦ (whole, 0)
  | some port ↦ (addr, port)
]

-- `[ipv6]:port`
unfoldable pub parse_bracketed : Bytes → Bytes × ℕ
unfolding rfind find_by leave_out parse_uint
parse_bracketed addr_port = elim (rfind b']' addr_port) [
  | none ↦ (addr_port, 0)
  | some bracket_end ↦
      let addr = leave_out (codes "::ffff:") 0 (drop 1 (take bracket_end addr_port)) in
      elim (find_by (λ a. a == b':') (drop bracket_end addr_port)) [
        | none ↦ (addr_port, 0)
        | some port_start ↦ with_port addr_port addr (drop (bracket_end + port_start + 1) addr_port)
      ]
]

-- `ipv4:port`
unfoldable pub parse_plain : Bytes → Bytes × ℕ
unfolding rfind parse_uint
parse_plain addr_port = elim (rfind b':' addr_port) [
  | none ↦ (addr_port, 0)
  | some colon_pos ↦ with_port addr_port (take colon_pos addr_port) (drop (colon_pos + 1) addr_port)
]

unfoldable pub parse_ip_and_port : Bytes → Bytes × ℕ
unfolding parse_bracketed parse_plain starts_with
parse_ip_and_port addr_port =
    if starts_with addr_port (codes "[") then parse_bracketed addr_port else parse_plain addr_port

-- The text between `(("` and the next quote, or nothing.
unfoldable pub process_name : Bytes → Bytes
unfolding find_text
process_name process_field = elim (find_text process_field (codes "((\"")) [
  | none ↦ []
  | some name_start ↦
      let behind = drop (name_start + 3) process_field in
      elim (find_text behind (codes "\"")) [ none ↦ [] | some name_end ↦ take name_end behind ]
]

-- The digits behind the first `pid=`, or nothing.
unfoldable pub pid_of : Bytes → Bytes
unfolding find_text find_by
pid_of process_field = elim (find_text process_field (codes "pid=")) [
  | none ↦ []
  | some pid_start ↦
      let pid_substr = drop (pid_start + 4) process_field in
      elim (find_by (λ a. not (is_digit a)) pid_substr) [
        | none ↦ pid_substr
        | some pid_end ↦ take pid_end pid_substr
      ]
]

unfoldable pub parse_process_info : Bytes → Bytes
unfolding contains process_name pid_of
parse_process_info process_field =
    let name = process_name process_field in
    let pid = pid_of process_field in
    if contains process_field (codes "pid=") && (not (is_empty name) && not (is_empty pid))
    then pid ++ codes "/" ++ name
    else []

parse_test :
    (parse_ip_and_port (codes "[::ffff:10.0.0.1]:443") ≡ (codes "10.0.0.1", 443))
    × (parse_ip_and_port (codes "10.0.0.1:80") ≡ (codes "10.0.0.1", 80))
    × (parse_ip_and_port (codes "10.0.0.1:http") ≡ (codes "10.0.0.1:http", 0))
    × (parse_process_info (codes "users:((\"sshd\",pid=536,fd=4))") ≡ codes "536/sshd")
unfolding parse_ip_and_port parse_process_info
parse_test = (refl, refl, refl, refl)
