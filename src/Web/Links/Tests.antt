-- ===== src/Web/Links/Tests.antt =====
-- src/web.rs: the cases of `port_links_from_config_resolves_each_case`, and a link to an IPv6 host.
use dockdoe.Prelude.{
  ◌≡◌, refl, none, some, Text, text, trim, split, eq_ignore_ascii_case, to_string,
}
use dockdoe.Web.Links.{browser, off, host, from_config, endpoint_host, port_href}

abbrev socket : Text
socket = text "unix:///var/run/docker.sock"

explicit_off : from_config (some (text "OFF")) socket ≡ off
unfolding from_config endpoint_host trim eq_ignore_ascii_case
explicit_off = refl

explicit_host : from_config (some (text " 192.168.1.50 ")) socket ≡ host (text "192.168.1.50")
unfolding from_config endpoint_host trim eq_ignore_ascii_case
explicit_host = refl

blank_host : from_config (some (text "  ")) socket ≡ browser
unfolding from_config endpoint_host trim eq_ignore_ascii_case
blank_host = refl

endpoint_name :
    from_config none (text "https://docker.example.com:2376/") ≡ host (text "docker.example.com")
unfolding from_config endpoint_host split
endpoint_name = refl

-- The brackets of an IPv6 address are dropped, and missing in the link.
unbracketed_link :
    port_href (from_config none (text "tcp://[::1]:2375")) 8080 ≡ some (text "http://::1:8080")
unfolding port_href from_config endpoint_host split to_string
unbracketed_link = refl
