-- ===== src/Examples/Endpoint.antt =====
-- A typed endpoint.
use linkable.Prelude.{◌≡◌, refl, some, codes, arith}
use linkable.Prelude.Int.{pos}
use linkable.Prelude.Decimal.{value, to_text}
use linkable.Prelude.Exec.{ok}
use linkable.Discovery.Endpoint.{count, endpoint, parse_direct_connect_endpoint, parse-endpoint}

parse-endpoint_example :
    parse_direct_connect_endpoint
      (λ t. t)
      (λ t. some (pos (value t)))
      (pos 37891)
      (endpoint (record { host = codes "10.0.0.2"; port = pos 8080 }))
    ≡ ok (record { host = codes "10.0.0.2"; port = pos 8080 })
unfolding count value to_text
parse-endpoint_example =
    parse-endpoint (λ t. t) (λ t. some (pos (value t))) (pos 37891) b'1' (codes "0.0.0.2") 8080
      (omega arith) refl refl refl
