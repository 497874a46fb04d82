-- ===== src/LinuxPages.antt =====
-- rust_http_proxy/src/linux_axum_handler.rs: the page `/nt` with the connections that `ss` lists.
-- The texts of `ss` are ASCII.
pub mod Parse
pub mod Tally
use rust_http_proxy.Common.{
  ℕ, suc, ◌+◌, Bool, true, false, not, ◌&&◌, if◌then◌else◌, ltb, ◌==◌, Option, none, some, List, [],
  ◌∷◌, ◌++◌, map, drop, is_empty, Result, ok, err, panic, wrapped, other, ◌>>=◌, Ordering, compare,
}
use rust_http_proxy.Common.Bytes.{Bytes, codes, beq, cmp}
use rust_http_proxy.Common.Bytes.Search.{lines, split_whitespace, pad_left, pad_right, join}
use rust_http_proxy.Common.Numbers.{decimal}
use rust_http_proxy.Common.Sort.{sort_by}
use rust_http_proxy.Http.{Http}
use rust_http_proxy.LinuxPages.Parse.{parse_ip_and_port, parse_process_info}

abbrev pub Connection : Type 0
Connection = Bytes × Bytes × ℕ × Bytes

-- The body of the loop over the lines: the connection that a line of six fields or more shows.
unfoldable pub connection_of : List Bytes → List Connection
unfolding parse_ip_and_port parse_process_info
connection_of (_ ∷ _ ∷ _ ∷ local_addr_port ∷ peer_addr_port ∷ process_field ∷ _) =
    let (local_addr, local_port) = parse_ip_and_port local_addr_port in
    let (peer_addr, peer_port) = parse_ip_and_port peer_addr_port in
    let process_info = parse_process_info process_field in
    if ltb local_port 10000 && (not (local_port == 22) && ltb 1024 peer_port)
    then (peer_addr, local_addr, local_port, process_info) ∷ []
    else []
connection_of _ = []

unfoldable pub connections_of : List Bytes → List Connection
unfolding connection_of split_whitespace
connections_of [] = []
connections_of (line ∷ rest) = connection_of (split_whitespace line) ++ connections_of rest

unfoldable pub connection_str : Connection → Bytes
unfolding decimal
connection_str (peer_addr, local_addr, local_port, process_info) =
    pad_left 15 peer_addr
    ++ codes "   => "
    ++ pad_left 15 local_addr
    ++ codes ":"
    ++ pad_right 5 (decimal local_port)
    ++ codes " "
    ++ process_info

abbrev pub Counts : Type 0
Counts = List (Bytes × ℕ)

-- `*connection_counts.entry(text).or_insert(0) += 1`
unfoldable pub add_one : Bytes → Counts → Counts
unfolding beq
add_one text [] = (text, 1) ∷ []
add_one text ((k, n) ∷ counts) =
    if beq k text then (k, suc n) ∷ counts else (k, n) ∷ add_one text counts

unfoldable pub connection_counts : List Bytes → Counts → Counts
unfolding add_one
connection_counts [] counts = counts
connection_counts (text ∷ texts) counts = connection_counts texts (add_one text counts)

-- The comparison that the entries are sorted by: the greater counts first, then by the texts.
unfoldable pub order : Bytes × ℕ → Bytes × ℕ → Ordering
unfolding cmp
order (s, m) (t, n) = elim (compare n m) [
  | Ordering.eq ↦ cmp s t
  | Ordering.lt ↦ Ordering.lt
  | Ordering.gt ↦ Ordering.gt
]

abbrev pub may_precede : Bytes × ℕ → Bytes × ℕ → Bool
may_precede x y = elim (order x y) [ Ordering.gt ↦ false | _ ↦ true ]

unfoldable pub shown : Bytes × ℕ → Bytes
unfolding decimal
shown (connection, count) = pad_left 4 (decimal count) ++ codes " " ++ connection

-- The entries in the order of the page: `into_iter` is the order in which the map gives them out.
unfoldable pub sorted_connections : (Counts → Counts) → List Bytes → Counts
unfolding connection_counts order sort_by
sorted_connections into_iter texts = sort_by may_precede (into_iter (connection_counts texts []))

-- The page, from the lines of `ss`, of which the first is a title.
unfoldable pub page_of : (Counts → Counts) → List Bytes → Bytes
unfolding connections_of connection_str sorted_connections shown join
page_of into_iter listed =
    let connections = connections_of (drop 1 listed) in
    join (codes "\n") (map shown (sorted_connections into_iter (map connection_str connections)))

abbrev pub or_default : Option Bytes → Bytes
or_default none = []
or_default (some s) = s

module _ (http : Http) (from_utf8 : Bytes → Option Bytes) (into_iter : Counts → Counts)
    (refresh : http.HeaderValue) where
  -- `count_stream`, on what running `ss` gives: its output and its error output. `refresh` is
  -- `HeaderValue::from_static("3")`.
  unfoldable pub count_stream : Result (Bytes × Bytes) → Result (http.HeaderMap × Bytes)
  unfolding page_of lines
  count_stream output = do
    streams ← output
    if is_empty (or_default (from_utf8 streams.1))
        then ok (
          http.insert "refresh" refresh http.no_headers,
          page_of into_iter (lines (or_default (from_utf8 streams.0))),
        )
        else err (wrapped other)
