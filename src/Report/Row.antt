-- ===== src/Report/Row.antt =====
-- A row of the report: the method `report` of `latencyLearner`.
use latlearn.Common.{ℕ, ℤ, pos, negsuc, Bytes, Bool, not, ◌&&◌, ◌++◌, codes, ◌==◌, if◌then◌else◌}
use latlearn.Common.Int.{eqb_ℤ, ltb_ℤ, quot}
use latlearn.Learner.{LatencyLearner}
use latlearn.Registry.{overhead_span}
use latlearn.Report.Text.{pad_left, pad_right}
use latlearn.Report.Number.{number_grouped}
use latlearn.Report.Overhead.{overhead_comp}

abbrev pub comma : Bytes
comma = codes ","

abbrev pub bar : Bytes
bar = codes " | "

-- The values that a row shows, before they are formatted.
unfoldable pub row_min : Bool → LatencyLearner → ℤ → ℤ
row_min subtract ll overhead =
    if not (eqb_ℤ overhead (negsuc 0)) && not (ll.name == overhead_span)
    then overhead_comp subtract ll.min overhead
    else ll.min

abbrev pub row_last : Bool → LatencyLearner → ℤ → ℤ
row_last subtract ll overhead = overhead_comp subtract ll.last overhead

abbrev pub row_max : Bool → LatencyLearner → ℤ → ℤ
row_max subtract ll overhead = overhead_comp subtract ll.max overhead

unfoldable pub row_mean : Bool → LatencyLearner → ℤ → ℤ
row_mean subtract ll overhead = overhead_comp subtract (quot ll.cumul ll.weight) overhead

-- `frac a b` is `fmt.Sprintf( "%8f", float64( a) / float64( b))`.
module _ (frac : ℤ → ℤ → Bytes) (subtract : Bool) where
  unfoldable pub row_completed : LatencyLearner → ℕ → ℤ → ℤ → Bytes
  row_completed ll name_field since_init overhead =
      let min_txt = pad_left 15 (number_grouped (row_min subtract ll overhead) comma) in
      let last_txt = pad_left 15 (number_grouped (row_last subtract ll overhead) comma) in
      let max_txt = pad_left 15 (number_grouped (row_max subtract ll overhead) comma) in
      let weighed = ltb_ℤ (pos 0) ll.weight in
      let mean_txt =
        if weighed
        then number_grouped (row_mean subtract ll overhead) comma
        else codes "???,???,???,???" in
      let weight_txt = if weighed then number_grouped ll.weight comma else codes "???,???,???" in
      let tf_txt = if weighed then frac ll.cumul since_init else codes "????????" in
      pad_right name_field ll.name
      ++ (codes ": "
          ++ (pad_left 15 min_txt
              ++ (bar
                  ++ (pad_left 15 last_txt
                      ++ (bar
                          ++ (pad_left 15 max_txt
                              ++ (bar
                                  ++ (pad_left 15 mean_txt
                                      ++ (codes " | w "
                                          ++ (pad_left 11 weight_txt
                                              ++ (codes " | tf "
                                                  ++ (pad_left 8 tf_txt
                                                      ++ (bar ++ pad_right 21 ll.name)))))))))))))

  unfoldable pub row_blank : LatencyLearner → ℕ → Bytes
  row_blank ll name_field =
      pad_right name_field ll.name
      ++ (codes
            ": ???,???,???,??? | ???,???,???,??? | ???,???,???,??? | ???,???,???,??? | w ???,???,??? | tf ???????? | "
          ++ pad_right 21 ll.name)

  -- The line that `to_file` writes.
  unfoldable pub row : LatencyLearner → ℕ → ℤ → ℤ → Bytes
  row ll name_field since_init overhead =
      (if ll.pair_ever_completed
        then row_completed ll name_field since_init overhead
        else row_blank ll name_field)
      ++ codes "\n"
