-- ===== src/Config/Example.antt =====
-- internal/config/config.go: the document that `Example` writes, before json.MarshalIndent. Numbers,
-- truth values and lists are their JSON.
use relay_tunnel.Prelude.{codes}
use relay_tunnel.Config.{text, other_value, object, Fields, empty, field}

abbrev pub example_admin : Fields
example_admin = field (codes "disabled") (other_value (codes "false")) (
    field (codes "username") (text (codes "admin")) (
      field (codes "password_hash") (text (codes "")) (
        field (codes "session_hours") (other_value (codes "12"))
          (field (codes "trust_forwarded_headers") (other_value (codes "false")) empty))))

abbrev pub example_server : Fields
example_server = field (codes "enabled") (other_value (codes "false")) (
    field (codes "name") (text (codes "rendezvous")) (
      field (codes "http") (text (codes ":7000")) (
        field (codes "udp") (text (codes ":7001")) (
          field (codes "public_udp") (text (codes "your.host.example:7001")) (
            field (codes "public_url") (text (codes "wss://your.host.example/signal")) (
              field (codes "verbose") (other_value (codes "false"))
                (field (codes "admin") (object example_admin) empty)))))))

abbrev pub example_expose : Fields
example_expose = field (codes "enabled") (other_value (codes "false")) (
    field (codes "name") (text (codes "workshop-pi")) (
      field (codes "server") (text (codes "ws://your.host.example:7000/signal")) (
        field (codes "code") (text (codes "your-session-code")) (
          field (codes "allow_dial") (other_value (codes "true")) (
            field (codes "allow") (other_value (codes "[\"127.0.0.1:8080\"]")) (
              field (codes "allow_exec") (other_value (codes "false")) (
                field (codes "file_root") (text (codes "/srv/share"))
                  (field (codes "verbose") (other_value (codes "false")) empty))))))))

abbrev pub example_connect : Fields
example_connect = field (codes "enabled") (other_value (codes "false")) (
    field (codes "name") (text (codes "laptop")) (
      field (codes "server") (text (codes "ws://your.host.example:7000/signal")) (
        field (codes "code") (text (codes "your-session-code")) (
          field (codes "forward") (other_value (codes "[\"9000:127.0.0.1:8080\"]")) (
            field (codes "socks") (other_value (codes "[\"1080\"]"))
              (field (codes "verbose") (other_value (codes "false")) empty))))))

abbrev pub example : Fields
example = field (codes "server") (object example_server) (
    field (codes "expose") (object example_expose)
      (field (codes "connect") (object example_connect) empty))
