-- ===== src/Engagement/Tests.antt =====
-- Device engagements at inputs, and the theorems on them.
use isomdl_elevenid.Common.{◌≡◌, refl, arith, [], ◌∷◌, none, some, ok, replicate}
use isomdl_elevenid.Common.Order.{str}
use isomdl_elevenid.Engagement.{
  DeviceEngagement, NfcOptions, DeviceRetrievalMethods, nfc, ble, wifi,
}
use isomdl_elevenid.Engagement.Tagged.{tag24_of, tag24_to_value}
use isomdl_elevenid.Issuance.Plan.{Tag24}
use isomdl_elevenid.DeviceKey.CoseKey.{CoseKey, to_value, of_value}
use isomdl_elevenid.DeviceKey.RoundTrip.{of_value-to_value}
use isomdl_elevenid.Engagement.Nfc.{
  IsNfc, nfc_of_value, nfc_to_value, nfc_of_value-IsNfc, nfc_of_value-nfc_to_value,
}
use isomdl_elevenid.Engagement.Codec.{engagement_to_value, engagement_of_value, engagement_to_vec}
use isomdl_elevenid.Engagement.RoundTrip.{IsEngagement, engagement_of_value-engagement_to_value}
use isomdl_elevenid.Engagement.Qr.{
  from_qr_code_uri, to_qr_code_uri, from_qr_code_uri-to_qr_code_uri,
}
use isomdl_elevenid.Engagement.Example.{
  toy_key, toy_serde, toy_base64, toy_serde-Derives, toy_serde-ReadsWritten,
  toy_base64-DecodesEncoded,
}

abbrev key : Tag24 CoseKey
key = record { inner = toy_key 7; inner_bytes = 7 ∷ [] }

abbrev plain_engagement : DeviceEngagement
plain_engagement = record {
  version = str "1.0";
  security = record { cipher_suite = 1; e_device_key = key };
  device_retrieval_methods = none;
  server_retrieval_methods = none;
  protocol_info = none;
}

abbrev methods : DeviceRetrievalMethods
methods = (
  ble (record {
    peripheral_server_mode = none;
    central_client_mode = some (record { uuid = replicate 16 5 });
  }),
  nfc (record { max_len_command_data_field = 255; max_len_response_data_field = 256 })
      ∷ wifi (record {
        pass_phrase = some (str "secret");
        channel_info_operating_class = none;
        channel_info_channel_number = some 6;
        band_info = none;
      })
      ∷ [],
)

abbrev full_engagement : DeviceEngagement
full_engagement = record plain_engagement {
  device_retrieval_methods = some methods;
  server_retrieval_methods =
      some (record { web_api = none; oidc = some (1, str "issuer", str "token") });
}

key_read : of_value (to_value (toy_key 7)) ≡ ok (toy_key 7)
key_read = of_value-to_value (toy_key 7)

plain_engagement-IsEngagement : IsEngagement toy_serde plain_engagement
plain_engagement-IsEngagement = record {
  supported = refl;
  suite = omega arith;
  key = rw key_read refl;
  methods = tt;
  servers = tt;
  reserved = refl;
}

full_engagement-IsEngagement : IsEngagement toy_serde full_engagement
full_engagement-IsEngagement = record {
  supported = refl;
  suite = omega arith;
  key = rw key_read refl;
  methods = ground arith;
  servers = omega arith;
  reserved = refl;
}

engagement_of_value-engagement_to_value_example :
    engagement_of_value toy_serde (engagement_to_value full_engagement) ≡ ok full_engagement
engagement_of_value-engagement_to_value_example =
    engagement_of_value-engagement_to_value toy_serde toy_serde-Derives full_engagement
      full_engagement-IsEngagement

abbrev shown : Tag24 DeviceEngagement
shown = record { inner = plain_engagement; inner_bytes = 1 ∷ 0 ∷ 7 ∷ [] }

shown_made : tag24_of (engagement_to_vec toy_serde) plain_engagement ≡ ok shown
unfolding tag24_of engagement_to_value tag24_to_value
shown_made = refl

from_qr_code_uri-to_qr_code_uri_example :
    from_qr_code_uri toy_base64 toy_serde (to_qr_code_uri toy_base64 shown) ≡ ok shown
from_qr_code_uri-to_qr_code_uri_example =
    from_qr_code_uri-to_qr_code_uri toy_base64 toy_serde toy_serde-Derives toy_base64-DecodesEncoded
      toy_serde-ReadsWritten plain_engagement shown plain_engagement-IsEngagement shown_made

-- More than the 65536 bytes that the standard allows for a response.
abbrev beyond : NfcOptions
beyond = record { max_len_command_data_field = 255; max_len_response_data_field = 70000 }

beyond_decoded : nfc_of_value (nfc_to_value beyond) ≡ ok beyond
beyond_decoded = nfc_of_value-nfc_to_value beyond (record {
  command_least = omega arith;
  command_fits = omega arith;
  response_least = omega arith;
  response_fits = omega arith;
})

nfc_of_value-IsNfc_example : IsNfc beyond
nfc_of_value-IsNfc_example = nfc_of_value-IsNfc (nfc_to_value beyond) beyond beyond_decoded
