-- ===== src/NetMonitor/Page.antt =====
-- `NetMonitor::net_json` of rust_http_proxy/src/linux_monitor.rs: what the page is drawn from.
use rust_http_proxy.Common.{
  ℕ, suc, ◌≤◌, ◌≡◌, refl, ap, ◌∙◌, Bool, true, false, Option, none, some, List, [], ◌∷◌, length,
  map,
}
use rust_http_proxy.Common.Bytes.{Bytes, codes}
use rust_http_proxy.NetMonitor.{TimeValue, NetMonitor, Reading, new, size, rounds}
use rust_http_proxy.NetMonitor.Window.{last_n, speeds, rounds-new}

pub data SeriesType : Type 0 where
  line bar : SeriesType

pub record Series : Type 0 where
  pub name : Bytes
  pub data_points : List ℕ
  pub show_max_point : Bool
  pub show_avg_line : Bool
  pub color : Option Bytes
  pub serires_type : Option SeriesType

pub record Snapshot : Type 0 where
  pub scales : List Bytes
  pub series_vec : List Series

-- The names of the two series, in UTF-8.
abbrev up_name : Bytes
up_name = 228 ∷ 184 ∷ 138 ∷ 232 ∷ 161 ∷ 140 ∷ 231 ∷ 189 ∷ 145 ∷ 233 ∷ 128 ∷ 159 ∷ []

abbrev down_name : Bytes
down_name = 228 ∷ 184 ∷ 139 ∷ 232 ∷ 161 ∷ 140 ∷ 231 ∷ 189 ∷ 145 ∷ 233 ∷ 128 ∷ 159 ∷ []

-- The loop over the buffer: the times, the speeds up and the speeds down.
unfoldable pub columns : List TimeValue → List Bytes × List ℕ × List ℕ
columns [] = ([], [], [])
columns (x ∷ r) =
    let (scales, series_up, series_down) = columns r in
    (x.time ∷ scales, x.egress ∷ series_up, x.ingress ∷ series_down)

unfoldable pub fetch_all : NetMonitor → Snapshot
unfolding columns
fetch_all m =
    let (scales, series_up, series_down) = columns m.buffer in
    record {
      scales = scales;
      series_vec =
          record {
            name = up_name;
            data_points = series_up;
            show_max_point = true;
            show_avg_line = true;
            color = some (codes "#ef0000");
            serires_type = none;
          }
          ∷ record {
            name = down_name;
            data_points = series_down;
            show_max_point = false;
            show_avg_line = false;
            color = some (codes "#5c7bd9");
            serires_type = none;
          }
          ∷ [];
    }

columns_lem :
    (buffer : List TimeValue)
    → columns buffer
      ≡ (map (λ x. x.time) buffer, map (λ x. x.egress) buffer, map (λ x. x.ingress) buffer)
unfolding columns
columns_lem [] = refl
columns_lem (x ∷ r) = rw (columns_lem r) refl

length-times : (buffer : List TimeValue) → length (map (λ x. x.time) buffer) ≡ length buffer
length-times [] = refl
length-times (x ∷ r) = ap suc (length-times r)

-- After any rounds from the start, the page shows the last 180 of the speeds, in their order: their times
-- as the scale, which is never longer than 180, and the speeds up and the speeds down, in this order, as
-- the data of its two series. A speed is taken between a reading and the one before, but not for a
-- reading whose predecessor had both counters at 0, as the start has.
pub fetch_all-rounds :
    (rs : List Reading)
    → ((fetch_all (rounds rs new)).scales ≡ map (λ x. x.time) (last_n size (speeds 0 0 rs)))
      × (map (λ s. s.data_points) (fetch_all (rounds rs new)).series_vec
          ≡ map (λ x. x.egress) (last_n size (speeds 0 0 rs))
            ∷ map (λ x. x.ingress) (last_n size (speeds 0 0 rs))
            ∷ [])
      × (length (fetch_all (rounds rs new)).scales ≤ 180)
unfolding fetch_all
fetch_all-rounds rs =
    let (held, few) = rounds-new rs in
    let buffer = (rounds rs new).buffer in
    let drawn =
      columns_lem buffer
      ∙ ap (λ b. (map (λ x. x.time) b, map (λ x. x.egress) b, map (λ x. x.ingress) b)) held in
    (
      ap (λ c. c.0) drawn,
      ap (λ c. c.1 ∷ c.2 ∷ []) drawn,
      rw (ap (λ c. c.0) (columns_lem buffer), length-times buffer) few,
    )
