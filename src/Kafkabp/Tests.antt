-- ===== src/Kafkabp/Tests.antt =====
-- Tests of kafkabp/rack.go.
use baseplate_go.Common.{◌≡◌, refl, [], ◌++◌, codes, bytes_eq, some, if◌then◌else◌}
use baseplate_go.Kafkabp.{
  Network, method_put, unmarshal_text, cut_prefix, aws_url, rack_id, trim_space, trim_left,
  trim_right,
}
use baseplate_go.Kafkabp.Racks.{url_rack_id}

-- The metadata service gives a token on PUT, and the zone to whoever has the token.
abbrev aws : Network
aws r =
    if bytes_eq r.method method_put
    then some (record { status_code = 200; content = some (codes "tok") })
    else some (record { status_code = 200; content = some (codes " us-east-1a ") })

zone : rack_id aws (unmarshal_text (codes "aws")) ≡ codes "us-east-1a"
unfolding rack_id unmarshal_text bytes_eq aws_url trim_space trim_left trim_right
zone = refl

fixed : rack_id aws (unmarshal_text (codes "fixed:aws")) ≡ codes "aws"
unfolding rack_id unmarshal_text cut_prefix bytes_eq
fixed = refl

url_rack_id_example :
    (rack_id aws (unmarshal_text (codes "http://" ++ codes "zone")) ≡ [])
    × (rack_id aws (unmarshal_text (codes "https://" ++ codes "zone")) ≡ [])
url_rack_id_example = url_rack_id aws (codes "zone")
