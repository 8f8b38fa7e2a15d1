-- ===== src/Web/Logs/Tests.antt =====
-- src/web.rs: a few lines of a log.
use dockdoe.Prelude.{◌≡◌, refl, text, split_once, is_digit}
use dockdoe.Web.Logs.{plain, stamped, render_log_line}
use dockdoe.Web.Logs.Lines.{IsRendered, render_log_line-IsRendered}

stamped_line :
    render_log_line (text "2026-06-12T10:15:30.123456789Z listening on :80")
    ≡ stamped (text "2026-06-12T10:15:30Z") (text "2026-06-12 10:15:30") (text "listening on :80")
unfolding render_log_line split_once is_digit
stamped_line = refl

plain_line :
    render_log_line (text "2026-06-12 10:15:30 no zone")
    ≡ plain (text "2026-06-12 10:15:30 no zone")
unfolding render_log_line split_once is_digit
plain_line = refl

render_log_line-IsRendered_example :
    IsRendered
      (text "2026-06-12T10:15:30.5Z up")
      (render_log_line (text "2026-06-12T10:15:30.5Z up"))
render_log_line-IsRendered_example = render_log_line-IsRendered (text "2026-06-12T10:15:30.5Z up")
