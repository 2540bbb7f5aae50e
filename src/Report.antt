-- ===== src/Report.antt =====
-- internal/report/report.go: the four formats of a report. JSON and the printing of times and of
-- floating-point numbers are parameters; a text is its bytes.
pub mod Formats
mod Tests
use aegis_edr.Prelude.{
  ℕ, ℤ, String, Option, none, some, List, [], ◌∷◌, Bool, true, false, if◌then◌else◌, ◌==◌,
  string_eq, ◌^^◌, show_nat, show_int, is_nonempty,
}
use Prim.Native.String.{len}

abbrev pub format_json : String
format_json = "JSON"

abbrev pub format_html : String
format_html = "HTML"

abbrev pub format_pdf : String
format_pdf = "PDF"

abbrev pub format_csv : String
format_csv = "CSV"

-- Scores and percentages are of a type that is only printed.
pub record ReportData (Score : Type 0) : Type 0 where
  pub timestamp : ℕ
  pub title : String
  pub summary : String
  pub alert_count : ℤ
  pub max_risk_score : Score
  pub mitre_tags : List String
  pub timeline_events : List String
  pub ioc_matches : List String
  pub cpu_usage : Score
  pub memory_mb : ℕ
  pub database_size_kb : ℤ
  pub status : String

pub record Outside (Score : Type 0) : Type 0 where
  pub marshal_indent : ReportData Score → Option String
  pub rfc3339 : ℕ → String
  -- %.2f
  pub show_score : Score → String

-- The `<li>` of each text, as it is.
unfoldable pub list_items : List String → String
list_items [] = ""
list_items (item ∷ items) = "<li>" ^^ item ^^ "</li>" ^^ list_items items

unfoldable pub card : String → List String → String
card heading items =
    if is_nonempty items
    then "<div class=\"card\"><h2>" ^^ heading ^^ "</h2><ul>" ^^ list_items items ^^ "</ul></div>"
    else ""

module _ {Score : Type 0} (outside : Outside Score) where
  open outside use {marshal_indent, rfc3339, show_score}

  html_head : ReportData Score → String
  html_head d =
      "<!DOCTYPE html>\n<html>\n<head>\n<title>"
      ^^ d.title
      ^^ "</title>\n<style>\nbody { font-family: sans-serif; margin: 30px; background-color: #f7f9fa; color: #333; }\nh1 { color: #1a73e8; }\n.card { background: white; padding: 20px; border-radius: 8px; box-shadow: 0 2px 4px rgba(0,0,0,0.1); margin-bottom: 20px; }\n.meta { color: #666; font-size: 0.9em; }\n</style>\n</head>\n<body>\n<h1>"
      ^^ d.title
      ^^ "</h1>\n<div class=\"meta\">Generated: "
      ^^ rfc3339 d.timestamp
      ^^ "</div>\n<div class=\"card\">\n<h2>Executive Summary</h2>\n<p>"
      ^^ d.summary
      ^^ "</p>\n<p>Alerts Triggered: <strong>"
      ^^ show_int d.alert_count
      ^^ "</strong> (Max Risk Score: <strong>"
      ^^ show_score d.max_risk_score
      ^^ "</strong>)</p>\n<p>System Status: <strong>"
      ^^ d.status
      ^^ "</strong></p>\n</div>\n"

  pub generate_html : ReportData Score → String
  generate_html d =
      html_head d
      ^^ card "Timeline Logs" d.timeline_events
      ^^ card "MITRE ATT&CK Mappings" d.mitre_tags
      ^^ card "IOC Matches" d.ioc_matches
      ^^ "</body></html>"

  pub generate_csv : ReportData Score → String
  generate_csv d =
      "Parameter,Value\n"
      ^^ "Report Title,"
      ^^ d.title
      ^^ "\n"
      ^^ "Generated At,"
      ^^ rfc3339 d.timestamp
      ^^ "\n"
      ^^ "Alerts,"
      ^^ show_int d.alert_count
      ^^ "\n"
      ^^ "Max Risk Score,"
      ^^ show_score d.max_risk_score
      ^^ "\n"
      ^^ "CPU Usage %,"
      ^^ show_score d.cpu_usage
      ^^ "\n"
      ^^ "Memory Usage MB,"
      ^^ show_nat d.memory_mb
      ^^ "\n"
      ^^ "Status,"
      ^^ d.status
      ^^ "\n"

  -- The text inside the PDF.
  pdf_text : String → ReportData Score → String
  pdf_text rep_type d =
      "AEGIS "
      ^^ rep_type
      ^^ " Report Generated: "
      ^^ rfc3339 d.timestamp
      ^^ "\nSummary: "
      ^^ d.summary
      ^^ "\nAlerts: "
      ^^ show_int d.alert_count
      ^^ "\nRisk: "
      ^^ show_score d.max_risk_score
      ^^ "\nStatus: "
      ^^ d.status

  pub generate_pdf : String → ReportData Score → String
  generate_pdf rep_type d =
      let txt = pdf_text rep_type d in
      "%PDF-1.4\n1 0 obj\n<< /Type /Catalog /Pages 2 0 R >>\nendobj\n2 0 obj\n<< /Type /Pages /Kids [ 3 0 R ] /Count 1 >>\nendobj\n3 0 obj\n<< /Type /Page /Parent 2 0 R /Resources << >> /Contents 4 0 R >>\nendobj\n4 0 obj\n<< /Length "
      ^^ show_nat (len txt)
      ^^ " >>\nstream\n"
      ^^ txt
      ^^ "\nendstream\nendobj\nxref\n0 5\n0000000000 65535 f\n0000000009 00000 n\n0000000056 00000 n\n0000000111 00000 n\n0000000196 00000 n\ntrailer\n<< /Size 5 /Root 1 0 R >>\nstartxref\n310\n%%EOF\n"

  -- Generate at the time `now`: the data, which the call changes, and the report; none is an error.
  unfoldable pub generate :
      ℕ → String → String → ReportData Score → ReportData Score × Option String
  generate now rep_type format d =
      let d' = record d { title = "AEGIS EDR " ^^ rep_type ^^ " Report"; timestamp = now } in
      (
        d',
        (if format == format_json
            then marshal_indent d'
            else if format == format_html
            then some (generate_html d')
            else if format == format_csv
            then some (generate_csv d')
            else if format == format_pdf
            then some (generate_pdf rep_type d')
            else none),
      )
