-- ===== src/Tests/LinuxPages.antt =====
-- The theorems on the page `/nt`, applied to concrete data.
use mathlib.Core.List.{Perm, Mem}
use mathlib.Core.List.Perm
use rust_http_proxy.Common.{ℕ, ◌≤◌, ◌≡◌, refl, ◌↔◌, false, List, [], ◌∷◌, ◌++◌, arith}
use rust_http_proxy.Common.Bytes.{Bytes, codes, starts_with}
use rust_http_proxy.Common.Bytes.Search.{leave_out}
use rust_http_proxy.Common.Numbers.{u16_max, decimal}
use rust_http_proxy.Common.Sort.{IsSorted}
use rust_http_proxy.LinuxPages.{Counts, sorted_connections, may_precede, page_of}
use rust_http_proxy.LinuxPages.Parse.{parse_ip_and_port}
use rust_http_proxy.LinuxPages.Parse.RoundTrip.{parse_ip_and_port-decimal}
use rust_http_proxy.LinuxPages.Tally.{
  occurrences, sorted_connections-occurrences, page_of-into_iter,
}

-- A map that gives out its first two entries the other way round.
abbrev swapped : Counts → Counts
swapped [] = []
swapped (x ∷ []) = x ∷ []
swapped (x ∷ y ∷ counts) = y ∷ x ∷ counts

swapped-perm : (counts : Counts) → Perm (swapped counts) counts
swapped-perm [] = Perm.refl _
swapped-perm (x ∷ []) = Perm.refl _
swapped-perm (x ∷ y ∷ counts) = Perm.swap x y counts

abbrev listed : List Bytes
listed =
    codes "State Recv-Q Send-Q Local Address:Port Peer Address:Port Process"
    ∷ codes "ESTAB 0 0 [::ffff:10.0.0.2]:443 10.0.0.9:5000 users:((\"proxy\",pid=7,fd=4))"
    ∷ codes "ESTAB 0 0 10.0.0.2:80 10.0.0.8:5001 -"
    ∷ codes "ESTAB 0 0 10.0.0.2:22 10.0.0.8:5001 -"
    ∷ codes "ESTAB 0 0 10.0.0.2:443 10.0.0.9:5002 users:((\"proxy\",pid=7,fd=4))"
    ∷ []

abbrev texts : List Bytes
texts = codes "a => b" ∷ codes "c => d" ∷ codes "a => b" ∷ []

page :
    page_of swapped listed
    ≡ codes
        "   2        10.0.0.9   =>        10.0.0.2:443   7/proxy\n   1        10.0.0.8   =>        10.0.0.2:80    "
unfolding page_of
page = refl

any_order : page_of swapped listed ≡ page_of (λ counts. counts) listed
any_order = page_of-into_iter swapped listed swapped-perm

sorted_connections-occurrences_example :
    IsSorted may_precede (sorted_connections swapped texts)
    × ((text : Bytes) (count : ℕ)
        → Mem (text, count) (sorted_connections swapped texts)
          ↔ ((1 ≤ count) × (count ≡ occurrences text texts)))
sorted_connections-occurrences_example = sorted_connections-occurrences swapped texts swapped-perm

port_fits : 443 ≤ u16_max
port_fits = omega arith

not_bracketed : starts_with (codes "::ffff:10.0.0.1") (codes "[") ≡ false
unfolding starts_with
not_bracketed = refl

parse_ip_and_port-decimal_example :
    (parse_ip_and_port (codes "::ffff:10.0.0.1" ++ b':' ∷ decimal 443)
      ≡ (codes "::ffff:10.0.0.1", 443))
    × (parse_ip_and_port (b'[' ∷ codes "::ffff:10.0.0.1" ++ b']' ∷ b':' ∷ decimal 443)
        ≡ (leave_out (codes "::ffff:") 0 (codes "::ffff:10.0.0.1"), 443))
parse_ip_and_port-decimal_example =
    parse_ip_and_port-decimal (codes "::ffff:10.0.0.1") 443 port_fits not_bracketed

-- Every `::ffff:` is left out, also one that is part of an address of the sixth version.
left_out : parse_ip_and_port (codes "[2001:db8::ffff:1]:80") ≡ (codes "2001:db81", 80)
unfolding parse_ip_and_port
left_out = refl
