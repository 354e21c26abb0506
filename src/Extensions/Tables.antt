-- ===== src/Extensions/Tables.antt =====
-- The tables of rsocket/extensions/mimetypes.py and rsocket/extensions/authentication_types.py: ids
-- with names, which are byte strings of ASCII characters.
use rsocket_py.Prelude.{List, [], ◌∷◌}
use rsocket_py.Bytes.{Bytes, ℤ, pos, negsuc}

-- A `WellKnownType`: its id and its name.
abbrev pub Table : Type 0
Table = List (ℤ × Bytes)

-- UNPARSEABLE_MIME_TYPE_DO_NOT_USE
abbrev pub unparseable_mime_type : ℤ × Bytes
unparseable_mime_type = (
  negsuc 1,
  85 ∷ 78 ∷ 80 ∷ 65 ∷ 82 ∷ 83 ∷ 69 ∷ 65 ∷ 66 ∷ 76 ∷ 69 ∷ 95 ∷ 77 ∷ 73 ∷ 77 ∷ 69 ∷ 95 ∷ 84 ∷ 89 ∷ 80
      ∷ 69 ∷ 95 ∷ 68 ∷ 79 ∷ 95 ∷ 78 ∷ 79 ∷ 84 ∷ 95 ∷ 85 ∷ 83 ∷ 69 ∷ [],
)

-- UNKNOWN_YET_RESERVED_DO_NOT_USE
abbrev pub unknown_reserved_mime_type : ℤ × Bytes
unknown_reserved_mime_type = (
  negsuc 0,
  85 ∷ 78 ∷ 75 ∷ 78 ∷ 79 ∷ 87 ∷ 78 ∷ 95 ∷ 89 ∷ 69 ∷ 84 ∷ 95 ∷ 82 ∷ 69 ∷ 83 ∷ 69 ∷ 82 ∷ 86 ∷ 69 ∷ 68
      ∷ 95 ∷ 68 ∷ 79 ∷ 95 ∷ 78 ∷ 79 ∷ 84 ∷ 95 ∷ 85 ∷ 83 ∷ 69 ∷ [],
)

-- application/avro
abbrev pub application_avro : ℤ × Bytes
application_avro = (
  pos 0,
  97 ∷ 112 ∷ 112 ∷ 108 ∷ 105 ∷ 99 ∷ 97 ∷ 116 ∷ 105 ∷ 111 ∷ 110 ∷ 47 ∷ 97 ∷ 118 ∷ 114 ∷ 111 ∷ [],
)

-- application/cbor
abbrev pub application_cbor : ℤ × Bytes
application_cbor = (
  pos 1,
  97 ∷ 112 ∷ 112 ∷ 108 ∷ 105 ∷ 99 ∷ 97 ∷ 116 ∷ 105 ∷ 111 ∷ 110 ∷ 47 ∷ 99 ∷ 98 ∷ 111 ∷ 114 ∷ [],
)

-- application/graphql
abbrev pub application_graphql : ℤ × Bytes
application_graphql = (
  pos 2,
  97 ∷ 112 ∷ 112 ∷ 108 ∷ 105 ∷ 99 ∷ 97 ∷ 116 ∷ 105 ∷ 111 ∷ 110 ∷ 47 ∷ 103 ∷ 114 ∷ 97 ∷ 112 ∷ 104
      ∷ 113 ∷ 108 ∷ [],
)

-- application/gzip
abbrev pub application_gzip : ℤ × Bytes
application_gzip = (
  pos 3,
  97 ∷ 112 ∷ 112 ∷ 108 ∷ 105 ∷ 99 ∷ 97 ∷ 116 ∷ 105 ∷ 111 ∷ 110 ∷ 47 ∷ 103 ∷ 122 ∷ 105 ∷ 112 ∷ [],
)

-- application/javascript
abbrev pub application_javascript : ℤ × Bytes
application_javascript = (
  pos 4,
  97 ∷ 112 ∷ 112 ∷ 108 ∷ 105 ∷ 99 ∷ 97 ∷ 116 ∷ 105 ∷ 111 ∷ 110 ∷ 47 ∷ 106 ∷ 97 ∷ 118 ∷ 97 ∷ 115 ∷ 99
      ∷ 114 ∷ 105 ∷ 112 ∷ 116 ∷ [],
)

-- application/json
abbrev pub application_json : ℤ × Bytes
application_json = (
  pos 5,
  97 ∷ 112 ∷ 112 ∷ 108 ∷ 105 ∷ 99 ∷ 97 ∷ 116 ∷ 105 ∷ 111 ∷ 110 ∷ 47 ∷ 106 ∷ 115 ∷ 111 ∷ 110 ∷ [],
)

-- application/octet-stream
abbrev pub application_octet_stream : ℤ × Bytes
application_octet_stream = (
  pos 6,
  97 ∷ 112 ∷ 112 ∷ 108 ∷ 105 ∷ 99 ∷ 97 ∷ 116 ∷ 105 ∷ 111 ∷ 110 ∷ 47 ∷ 111 ∷ 99 ∷ 116 ∷ 101 ∷ 116
      ∷ 45 ∷ 115 ∷ 116 ∷ 114 ∷ 101 ∷ 97 ∷ 109 ∷ [],
)

-- application/pdf
abbrev pub application_pdf : ℤ × Bytes
application_pdf = (
  pos 7,
  97 ∷ 112 ∷ 112 ∷ 108 ∷ 105 ∷ 99 ∷ 97 ∷ 116 ∷ 105 ∷ 111 ∷ 110 ∷ 47 ∷ 112 ∷ 100 ∷ 102 ∷ [],
)

-- application/vnd.apache.thrift.binary
abbrev pub application_thrift : ℤ × Bytes
application_thrift = (
  pos 8,
  97 ∷ 112 ∷ 112 ∷ 108 ∷ 105 ∷ 99 ∷ 97 ∷ 116 ∷ 105 ∷ 111 ∷ 110 ∷ 47 ∷ 118 ∷ 110 ∷ 100 ∷ 46 ∷ 97
      ∷ 112 ∷ 97 ∷ 99 ∷ 104 ∷ 101 ∷ 46 ∷ 116 ∷ 104 ∷ 114 ∷ 105 ∷ 102 ∷ 116 ∷ 46 ∷ 98 ∷ 105 ∷ 110
      ∷ 97 ∷ 114 ∷ 121 ∷ [],
)

-- application/vnd.google.protobuf
abbrev pub application_protobuf : ℤ × Bytes
application_protobuf = (
  pos 9,
  97 ∷ 112 ∷ 112 ∷ 108 ∷ 105 ∷ 99 ∷ 97 ∷ 116 ∷ 105 ∷ 111 ∷ 110 ∷ 47 ∷ 118 ∷ 110 ∷ 100 ∷ 46 ∷ 103
      ∷ 111 ∷ 111 ∷ 103 ∷ 108 ∷ 101 ∷ 46 ∷ 112 ∷ 114 ∷ 111 ∷ 116 ∷ 111 ∷ 98 ∷ 117 ∷ 102 ∷ [],
)

-- application/xml
abbrev pub application_xml : ℤ × Bytes
application_xml = (
  pos 10,
  97 ∷ 112 ∷ 112 ∷ 108 ∷ 105 ∷ 99 ∷ 97 ∷ 116 ∷ 105 ∷ 111 ∷ 110 ∷ 47 ∷ 120 ∷ 109 ∷ 108 ∷ [],
)

-- application/zip
abbrev pub application_zip : ℤ × Bytes
application_zip = (
  pos 11,
  97 ∷ 112 ∷ 112 ∷ 108 ∷ 105 ∷ 99 ∷ 97 ∷ 116 ∷ 105 ∷ 111 ∷ 110 ∷ 47 ∷ 122 ∷ 105 ∷ 112 ∷ [],
)

-- audio/aac
abbrev pub audio_aac : ℤ × Bytes
audio_aac = (pos 12, 97 ∷ 117 ∷ 100 ∷ 105 ∷ 111 ∷ 47 ∷ 97 ∷ 97 ∷ 99 ∷ [])

-- audio/mp3
abbrev pub audio_mp3 : ℤ × Bytes
audio_mp3 = (pos 13, 97 ∷ 117 ∷ 100 ∷ 105 ∷ 111 ∷ 47 ∷ 109 ∷ 112 ∷ 51 ∷ [])

-- audio/mp4
abbrev pub audio_mp4 : ℤ × Bytes
audio_mp4 = (pos 14, 97 ∷ 117 ∷ 100 ∷ 105 ∷ 111 ∷ 47 ∷ 109 ∷ 112 ∷ 52 ∷ [])

-- audio/mpeg3
abbrev pub audio_mpeg3 : ℤ × Bytes
audio_mpeg3 = (pos 15, 97 ∷ 117 ∷ 100 ∷ 105 ∷ 111 ∷ 47 ∷ 109 ∷ 112 ∷ 101 ∷ 103 ∷ 51 ∷ [])

-- audio/mpeg
abbrev pub audio_mpeg : ℤ × Bytes
audio_mpeg = (pos 16, 97 ∷ 117 ∷ 100 ∷ 105 ∷ 111 ∷ 47 ∷ 109 ∷ 112 ∷ 101 ∷ 103 ∷ [])

-- audio/ogg
abbrev pub audio_ogg : ℤ × Bytes
audio_ogg = (pos 17, 97 ∷ 117 ∷ 100 ∷ 105 ∷ 111 ∷ 47 ∷ 111 ∷ 103 ∷ 103 ∷ [])

-- audio/opus
abbrev pub audio_opus : ℤ × Bytes
audio_opus = (pos 18, 97 ∷ 117 ∷ 100 ∷ 105 ∷ 111 ∷ 47 ∷ 111 ∷ 112 ∷ 117 ∷ 115 ∷ [])

-- audio/vorbis
abbrev pub audio_vorbis : ℤ × Bytes
audio_vorbis = (pos 19, 97 ∷ 117 ∷ 100 ∷ 105 ∷ 111 ∷ 47 ∷ 118 ∷ 111 ∷ 114 ∷ 98 ∷ 105 ∷ 115 ∷ [])

-- image/bmp
abbrev pub image_bmp : ℤ × Bytes
image_bmp = (pos 20, 105 ∷ 109 ∷ 97 ∷ 103 ∷ 101 ∷ 47 ∷ 98 ∷ 109 ∷ 112 ∷ [])

-- image/gif
abbrev pub image_gif : ℤ × Bytes
image_gif = (pos 21, 105 ∷ 109 ∷ 97 ∷ 103 ∷ 101 ∷ 47 ∷ 103 ∷ 105 ∷ 102 ∷ [])

-- image/heic-sequence
abbrev pub image_heic_sequence : ℤ × Bytes
image_heic_sequence = (
  pos 22,
  105 ∷ 109 ∷ 97 ∷ 103 ∷ 101 ∷ 47 ∷ 104 ∷ 101 ∷ 105 ∷ 99 ∷ 45 ∷ 115 ∷ 101 ∷ 113 ∷ 117 ∷ 101 ∷ 110
      ∷ 99 ∷ 101 ∷ [],
)

-- image/heic
abbrev pub image_heic : ℤ × Bytes
image_heic = (pos 23, 105 ∷ 109 ∷ 97 ∷ 103 ∷ 101 ∷ 47 ∷ 104 ∷ 101 ∷ 105 ∷ 99 ∷ [])

-- image/heif-sequence
abbrev pub image_heif_sequence : ℤ × Bytes
image_heif_sequence = (
  pos 24,
  105 ∷ 109 ∷ 97 ∷ 103 ∷ 101 ∷ 47 ∷ 104 ∷ 101 ∷ 105 ∷ 102 ∷ 45 ∷ 115 ∷ 101 ∷ 113 ∷ 117 ∷ 101 ∷ 110
      ∷ 99 ∷ 101 ∷ [],
)

-- image/heif
abbrev pub image_heif : ℤ × Bytes
image_heif = (pos 25, 105 ∷ 109 ∷ 97 ∷ 103 ∷ 101 ∷ 47 ∷ 104 ∷ 101 ∷ 105 ∷ 102 ∷ [])

-- image/jpeg
abbrev pub image_jpeg : ℤ × Bytes
image_jpeg = (pos 26, 105 ∷ 109 ∷ 97 ∷ 103 ∷ 101 ∷ 47 ∷ 106 ∷ 112 ∷ 101 ∷ 103 ∷ [])

-- image/png
abbrev pub image_png : ℤ × Bytes
image_png = (pos 27, 105 ∷ 109 ∷ 97 ∷ 103 ∷ 101 ∷ 47 ∷ 112 ∷ 110 ∷ 103 ∷ [])

-- image/tiff
abbrev pub image_tiff : ℤ × Bytes
image_tiff = (pos 28, 105 ∷ 109 ∷ 97 ∷ 103 ∷ 101 ∷ 47 ∷ 116 ∷ 105 ∷ 102 ∷ 102 ∷ [])

-- multipart/mixed
abbrev pub multipart_mixed : ℤ × Bytes
multipart_mixed = (
  pos 29,
  109 ∷ 117 ∷ 108 ∷ 116 ∷ 105 ∷ 112 ∷ 97 ∷ 114 ∷ 116 ∷ 47 ∷ 109 ∷ 105 ∷ 120 ∷ 101 ∷ 100 ∷ [],
)

-- text/css
abbrev pub text_css : ℤ × Bytes
text_css = (pos 30, 116 ∷ 101 ∷ 120 ∷ 116 ∷ 47 ∷ 99 ∷ 115 ∷ 115 ∷ [])

-- text/csv
abbrev pub text_csv : ℤ × Bytes
text_csv = (pos 31, 116 ∷ 101 ∷ 120 ∷ 116 ∷ 47 ∷ 99 ∷ 115 ∷ 118 ∷ [])

-- text/html
abbrev pub text_html : ℤ × Bytes
text_html = (pos 32, 116 ∷ 101 ∷ 120 ∷ 116 ∷ 47 ∷ 104 ∷ 116 ∷ 109 ∷ 108 ∷ [])

-- text/plain
abbrev pub text_plain : ℤ × Bytes
text_plain = (pos 33, 116 ∷ 101 ∷ 120 ∷ 116 ∷ 47 ∷ 112 ∷ 108 ∷ 97 ∷ 105 ∷ 110 ∷ [])

-- text/xml
abbrev pub text_xml : ℤ × Bytes
text_xml = (pos 34, 116 ∷ 101 ∷ 120 ∷ 116 ∷ 47 ∷ 120 ∷ 109 ∷ 108 ∷ [])

-- video/H264
abbrev pub video_h264 : ℤ × Bytes
video_h264 = (pos 35, 118 ∷ 105 ∷ 100 ∷ 101 ∷ 111 ∷ 47 ∷ 72 ∷ 50 ∷ 54 ∷ 52 ∷ [])

-- video/H265
abbrev pub video_h265 : ℤ × Bytes
video_h265 = (pos 36, 118 ∷ 105 ∷ 100 ∷ 101 ∷ 111 ∷ 47 ∷ 72 ∷ 50 ∷ 54 ∷ 53 ∷ [])

-- video/VP8
abbrev pub video_vp8 : ℤ × Bytes
video_vp8 = (pos 37, 118 ∷ 105 ∷ 100 ∷ 101 ∷ 111 ∷ 47 ∷ 86 ∷ 80 ∷ 56 ∷ [])

-- application/x-hessian
abbrev pub application_hessian : ℤ × Bytes
application_hessian = (
  pos 38,
  97 ∷ 112 ∷ 112 ∷ 108 ∷ 105 ∷ 99 ∷ 97 ∷ 116 ∷ 105 ∷ 111 ∷ 110 ∷ 47 ∷ 120 ∷ 45 ∷ 104 ∷ 101 ∷ 115
      ∷ 115 ∷ 105 ∷ 97 ∷ 110 ∷ [],
)

-- application/x-java-object
abbrev pub application_java_object : ℤ × Bytes
application_java_object = (
  pos 39,
  97 ∷ 112 ∷ 112 ∷ 108 ∷ 105 ∷ 99 ∷ 97 ∷ 116 ∷ 105 ∷ 111 ∷ 110 ∷ 47 ∷ 120 ∷ 45 ∷ 106 ∷ 97 ∷ 118 ∷ 97
      ∷ 45 ∷ 111 ∷ 98 ∷ 106 ∷ 101 ∷ 99 ∷ 116 ∷ [],
)

-- application/cloudevents+json
abbrev pub application_cloudevents_json : ℤ × Bytes
application_cloudevents_json = (
  pos 40,
  97 ∷ 112 ∷ 112 ∷ 108 ∷ 105 ∷ 99 ∷ 97 ∷ 116 ∷ 105 ∷ 111 ∷ 110 ∷ 47 ∷ 99 ∷ 108 ∷ 111 ∷ 117 ∷ 100
      ∷ 101 ∷ 118 ∷ 101 ∷ 110 ∷ 116 ∷ 115 ∷ 43 ∷ 106 ∷ 115 ∷ 111 ∷ 110 ∷ [],
)

-- message/x.rsocket.mime-type.v0
abbrev pub message_rsocket_mimetype : ℤ × Bytes
message_rsocket_mimetype = (
  pos 122,
  109 ∷ 101 ∷ 115 ∷ 115 ∷ 97 ∷ 103 ∷ 101 ∷ 47 ∷ 120 ∷ 46 ∷ 114 ∷ 115 ∷ 111 ∷ 99 ∷ 107 ∷ 101 ∷ 116
      ∷ 46 ∷ 109 ∷ 105 ∷ 109 ∷ 101 ∷ 45 ∷ 116 ∷ 121 ∷ 112 ∷ 101 ∷ 46 ∷ 118 ∷ 48 ∷ [],
)

-- message/x.rsocket.accept-mime-types.v0
abbrev pub message_rsocket_accept_mimetypes : ℤ × Bytes
message_rsocket_accept_mimetypes = (
  pos 123,
  109 ∷ 101 ∷ 115 ∷ 115 ∷ 97 ∷ 103 ∷ 101 ∷ 47 ∷ 120 ∷ 46 ∷ 114 ∷ 115 ∷ 111 ∷ 99 ∷ 107 ∷ 101 ∷ 116
      ∷ 46 ∷ 97 ∷ 99 ∷ 99 ∷ 101 ∷ 112 ∷ 116 ∷ 45 ∷ 109 ∷ 105 ∷ 109 ∷ 101 ∷ 45 ∷ 116 ∷ 121 ∷ 112
      ∷ 101 ∷ 115 ∷ 46 ∷ 118 ∷ 48 ∷ [],
)

-- message/x.rsocket.authentication.v0
abbrev pub message_rsocket_authentication : ℤ × Bytes
message_rsocket_authentication = (
  pos 124,
  109 ∷ 101 ∷ 115 ∷ 115 ∷ 97 ∷ 103 ∷ 101 ∷ 47 ∷ 120 ∷ 46 ∷ 114 ∷ 115 ∷ 111 ∷ 99 ∷ 107 ∷ 101 ∷ 116
      ∷ 46 ∷ 97 ∷ 117 ∷ 116 ∷ 104 ∷ 101 ∷ 110 ∷ 116 ∷ 105 ∷ 99 ∷ 97 ∷ 116 ∷ 105 ∷ 111 ∷ 110 ∷ 46
      ∷ 118 ∷ 48 ∷ [],
)

-- message/x.rsocket.tracing-zipkin.v0
abbrev pub message_rsocket_tracing_zipkin : ℤ × Bytes
message_rsocket_tracing_zipkin = (
  pos 125,
  109 ∷ 101 ∷ 115 ∷ 115 ∷ 97 ∷ 103 ∷ 101 ∷ 47 ∷ 120 ∷ 46 ∷ 114 ∷ 115 ∷ 111 ∷ 99 ∷ 107 ∷ 101 ∷ 116
      ∷ 46 ∷ 116 ∷ 114 ∷ 97 ∷ 99 ∷ 105 ∷ 110 ∷ 103 ∷ 45 ∷ 122 ∷ 105 ∷ 112 ∷ 107 ∷ 105 ∷ 110 ∷ 46
      ∷ 118 ∷ 48 ∷ [],
)

-- message/x.rsocket.routing.v0
abbrev pub message_rsocket_routing : ℤ × Bytes
message_rsocket_routing = (
  pos 126,
  109 ∷ 101 ∷ 115 ∷ 115 ∷ 97 ∷ 103 ∷ 101 ∷ 47 ∷ 120 ∷ 46 ∷ 114 ∷ 115 ∷ 111 ∷ 99 ∷ 107 ∷ 101 ∷ 116
      ∷ 46 ∷ 114 ∷ 111 ∷ 117 ∷ 116 ∷ 105 ∷ 110 ∷ 103 ∷ 46 ∷ 118 ∷ 48 ∷ [],
)

-- message/x.rsocket.composite-metadata.v0
abbrev pub message_rsocket_composite_metadata : ℤ × Bytes
message_rsocket_composite_metadata = (
  pos 127,
  109 ∷ 101 ∷ 115 ∷ 115 ∷ 97 ∷ 103 ∷ 101 ∷ 47 ∷ 120 ∷ 46 ∷ 114 ∷ 115 ∷ 111 ∷ 99 ∷ 107 ∷ 101 ∷ 116
      ∷ 46 ∷ 99 ∷ 111 ∷ 109 ∷ 112 ∷ 111 ∷ 115 ∷ 105 ∷ 116 ∷ 101 ∷ 45 ∷ 109 ∷ 101 ∷ 116 ∷ 97 ∷ 100
      ∷ 97 ∷ 116 ∷ 97 ∷ 46 ∷ 118 ∷ 48 ∷ [],
)

unfoldable pub well_known_mime_types : Table
well_known_mime_types =
    unparseable_mime_type ∷ unknown_reserved_mime_type ∷ application_avro ∷ application_cbor
    ∷ application_graphql ∷ application_gzip ∷ application_javascript ∷ application_json
    ∷ application_octet_stream ∷ application_pdf ∷ application_thrift ∷ application_protobuf
    ∷ application_xml ∷ application_zip ∷ audio_aac ∷ audio_mp3 ∷ audio_mp4 ∷ audio_mpeg3
    ∷ audio_mpeg ∷ audio_ogg ∷ audio_opus ∷ audio_vorbis ∷ image_bmp ∷ image_gif
    ∷ image_heic_sequence ∷ image_heic ∷ image_heif_sequence ∷ image_heif ∷ image_jpeg ∷ image_png
    ∷ image_tiff ∷ multipart_mixed ∷ text_css ∷ text_csv ∷ text_html ∷ text_plain ∷ text_xml
    ∷ video_h264 ∷ video_h265 ∷ video_vp8 ∷ application_hessian ∷ application_java_object
    ∷ application_cloudevents_json ∷ message_rsocket_mimetype ∷ message_rsocket_accept_mimetypes
    ∷ message_rsocket_authentication ∷ message_rsocket_tracing_zipkin ∷ message_rsocket_routing
    ∷ message_rsocket_composite_metadata ∷ []

-- simple
abbrev pub simple : ℤ × Bytes
simple = (pos 0, 115 ∷ 105 ∷ 109 ∷ 112 ∷ 108 ∷ 101 ∷ [])

-- bearer
abbrev pub bearer : ℤ × Bytes
bearer = (pos 1, 98 ∷ 101 ∷ 97 ∷ 114 ∷ 101 ∷ 114 ∷ [])

unfoldable pub well_known_authentication_types : Table
well_known_authentication_types = simple ∷ bearer ∷ []
