-- ===== src/Tests/NetMonitor.antt =====
-- The theorems on the monitor, applied to concrete readings and a device table.
use rust_http_proxy.Common.{
  ℕ, ◌≤◌, true, false, is_empty, ◌%◌, ◌≡◌, ◌≢◌, refl, List, [], ◌∷◌, ◌++◌, map, length, All, some,
  arith,
}
use rust_http_proxy.Common.Bytes.{Bytes, codes}
use rust_http_proxy.Common.Numbers.{u64_mod, decimal}
use rust_http_proxy.NetMonitor.{Reading, new, size, rounds}
use rust_http_proxy.NetMonitor.Device.{get_egress_ingress}
use rust_http_proxy.NetMonitor.Device.Printed.{
  IsWord, is_gap, Line, IsLine, AreCells, words_of, print_lines,
}
use rust_http_proxy.NetMonitor.Device.Sums.{
  Interface, words, IsInterface, all_sent, all_received, get_egress_ingress-sums,
}
use rust_http_proxy.NetMonitor.Page.{fetch_all, fetch_all-rounds}
use rust_http_proxy.NetMonitor.Window.{last_n, speeds, rounds-new}

abbrev readings : List Reading
readings =
    record { time = codes "10:00:00"; egress = 1000; ingress = 500 }
    ∷ record { time = codes "10:00:05"; egress = 6000; ingress = 500 }
    ∷ record { time = codes "10:00:10"; egress = 6000; ingress = 1500 }
    ∷ []

window :
    ((rounds readings new).buffer ≡ last_n size (speeds 0 0 readings))
    × (length (rounds readings new).buffer ≤ 180)
window = rounds-new readings

fetch_all-rounds_example :
    ((fetch_all (rounds readings new)).scales
      ≡ map (λ x. x.time) (last_n size (speeds 0 0 readings)))
    × (map (λ s. s.data_points) (fetch_all (rounds readings new)).series_vec
        ≡ map (λ x. x.egress) (last_n size (speeds 0 0 readings))
          ∷ map (λ x. x.ingress) (last_n size (speeds 0 0 readings))
          ∷ [])
    × (length (fetch_all (rounds readings new)).scales ≤ 180)
fetch_all-rounds_example = fetch_all-rounds readings

-- The end of a line of `/proc/net/dev`, from the packets of one direction on, and its gaps.
abbrev zeros : List Bytes
zeros = codes "0" ∷ codes "0" ∷ codes "0" ∷ codes "0" ∷ codes "0" ∷ codes "0" ∷ codes "0" ∷ []

abbrev interface : Bytes → ℕ → ℕ → Interface
interface name received sent = record {
  name = name;
  received = received;
  received_more = zeros;
  sent = sent;
  sent_more = zeros;
}

abbrev interfaces : List Interface
interfaces = interface (codes "lo:") 5 5 ∷ interface (codes "ens5:") 194703959 271636211 ∷ []

abbrev zero_cells : List (Bytes × Bytes) → List (Bytes × Bytes)
zero_cells more =
    (codes "  ", codes "0")
    ∷ (codes "    ", codes "0")
    ∷ (codes "    ", codes "0")
    ∷ (codes "    ", codes "0")
    ∷ (codes "     ", codes "0")
    ∷ (codes "          ", codes "0")
    ∷ (codes "         ", codes "0")
    ∷ more

abbrev line : Bytes → Bytes → Bytes → Bytes → Line
line indent name received sent = record {
  cells = (indent, name) ∷ (codes " ", received) ∷ zero_cells ((codes " ", sent) ∷ zero_cells []);
  tail = [];
}

-- The first header of the kernel's table, and a line for each interface.
abbrev table : List Line
table =
    record {
      cells =
          ([], codes "Inter-|")
          ∷ (codes "   ", codes "Receive")
          ∷ (codes "                                                ", codes "|")
          ∷ (codes "  ", codes "Transmit")
          ∷ [];
      tail = [];
    }
    ∷ line (codes "    ") (codes "lo:") (codes "5") (codes "5")
    ∷ line (codes "  ") (codes "ens5:") (codes "194703959") (codes "271636211")
    ∷ []

abbrev headers : List (List Bytes)
headers = (codes "Inter-|" ∷ codes "Receive" ∷ codes "|" ∷ codes "Transmit" ∷ []) ∷ []

shows : map words_of table ≡ headers ++ map words interfaces
unfolding decimal
shows = refl

other_headers : All (λ ws. length ws ≢ 17) headers
other_headers = (λ e. omega arith, tt)

zeros_lem : (more : List (Bytes × Bytes)) → AreCells more → AreCells (zero_cells more)
zeros_lem more h = (
  (refl, (refl, refl)),
  (
    (refl, (refl, refl)),
    (
      (refl, (refl, refl)),
      (
        (refl, (refl, refl)),
        ((refl, (refl, refl)), ((refl, (refl, refl)), ((refl, (refl, refl)), h))),
      ),
    ),
  ),
)

-- The gaps of these cells are full.
abbrev AreFull : List (Bytes × Bytes) → Type 0
AreFull cells = All (λ c. is_empty c.0 ≡ false) cells

zeros_full : (more : List (Bytes × Bytes)) → AreFull more → AreFull (zero_cells more)
zeros_full more h = (refl, (refl, (refl, (refl, (refl, (refl, (refl, h)))))))

line-IsLine :
    (indent name received sent : Bytes)
    → is_gap indent ≡ true
    → IsWord name
    → IsWord received
    → IsWord sent
    → IsLine (line indent name received sent)
line-IsLine indent name received sent hi hn hr hs = (
  (
    (hi, hn),
    ((refl, hr), zeros_lem ((codes " ", sent) ∷ zero_cells []) ((refl, hs), zeros_lem [] tt)),
  ),
  (refl, zeros_full ((codes " ", sent) ∷ zero_cells []) (refl, zeros_full [] tt)),
  refl,
)

are_lines : All IsLine table
are_lines = (
  (
    (
      (refl, (refl, refl)),
      ((refl, (refl, refl)), ((refl, (refl, refl)), ((refl, (refl, refl)), tt))),
    ),
    (refl, (refl, (refl, tt))),
    refl,
  ),
  (
    line-IsLine (codes "    ") (codes "lo:") (codes "5") (codes "5") refl (refl, refl) (refl, refl)
        (refl, refl),
    (
      line-IsLine (codes "  ") (codes "ens5:") (codes "194703959") (codes "271636211") refl
          (refl, refl) (refl, refl) (refl, refl),
      tt,
    ),
  ),
)

are_interfaces : All IsInterface interfaces
are_interfaces =
    ((omega arith, omega arith, refl, refl), ((omega arith, omega arith, refl, refl), tt))

get_egress_ingress-sums_example :
    get_egress_ingress (some (print_lines table))
    ≡ (all_sent interfaces % u64_mod, all_received interfaces % u64_mod)
get_egress_ingress-sums_example =
    get_egress_ingress-sums table headers interfaces are_lines shows other_headers are_interfaces
