-- ===== src/Api/Experiments/Badge.antt =====
-- `renderStatusBadge` of cmd/api/handlers/chaos.go and what it calls, over code points.
use clusterprobe.Prelude.{String, ◌<>◌, Bool, ◌||◌, if◌then◌else◌}
use clusterprobe.Go.Strings.{mentions}

unfoldable pub status_badge_class : String → String
status_badge_class status =
    if mentions status "fail" || mentions status "error"
    then "error"
    else if mentions status "running" || (mentions status "finish" || mentions status "complete")
    then "success"
    else "warn"

unfoldable pub is_terminal_status : String → Bool
is_terminal_status status =
    mentions status "complete"
    || (mentions status "finish" || (mentions status "fail" || mentions status "error"))

unfoldable pub render_status_badge : (id status : String) → String
render_status_badge id status =
    let class = status_badge_class status in
    if is_terminal_status status
    then "<span class=\"badge " <> (class <> ("\">" <> (status <> "</span>")))
    else "<span class=\"badge "
      <> (class
          <> ("\" hx-get=\"/api/v1/chaos/experiments/"
              <> (id
                  <> ("?view=badge\" hx-trigger=\"every 3s\" hx-swap=\"outerHTML\">"
                      <> (status <> "</span>")))))
