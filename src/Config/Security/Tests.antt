-- ===== src/Config/Security/Tests.antt =====
-- The theorems on credentials at concrete inputs.
use hawkular_openshift_agent.Base.{Str, codes, ◌≡◌, refl, some, [], ok, arith}
use hawkular_openshift_agent.Collector.{Credentials}
use hawkular_openshift_agent.Config.Security.{
  validate_credentials, get_http_auth_header, base64, base64_digit,
}
use hawkular_openshift_agent.Config.Security.Header.{recover, recover-header}

abbrev aladdin : Credentials
aladdin = record { username = codes "Aladdin"; password = codes "open sesame"; token = [] }

recover-header_example :
    (h : Str × Str) × (get_http_auth_header (some aladdin) ≡ ok h) × (recover h ≡ aladdin)
unfolding validate_credentials
recover-header_example = recover-header aladdin refl (omega arith) (omega arith) (omega arith)

base64_of_aladdin : base64 (codes "Aladdin:open sesame") ≡ codes "QWxhZGRpbjpvcGVuIHNlc2FtZQ=="
unfolding base64 base64_digit
base64_of_aladdin = refl
