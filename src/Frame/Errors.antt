-- ===== src/Frame/Errors.antt =====
-- `exception_to_error_frame` and `error_frame_to_exception` of rsocket/frame.py. The text of an
-- exception that is no protocol error is an argument, as bytes; `RSocketStreamIdInUse` is a
-- protocol error without a text.
use rsocket_py.Prelude.{
  ℕ, ◌≡◌, refl, true, Result, ok, err, unicode_decode_error, Option, none, some, ErrorCode, Error,
  protocol_error, stream_id_in_use, runtime_error, ◌==◌, if◌then◌else◌,
}
use rsocket_py.Bytes.{Bytes}
use rsocket_py.Bytes.Utf8.{is_utf8}
use rsocket_py.Frame.Codes.{code_value}
use rsocket_py.Frame.Slots.{Body, Frame, init}

abbrev error_frame : ℕ → ErrorCode → Option Bytes → Frame
error_frame stream_id code data_bytes = record (init (Body.error code)) {
  header = record (init (Body.error code)).header { stream_id = stream_id };
  data_bytes = data_bytes;
}

unfoldable pub exception_to_error_frame : ℕ → Error → (Error → Bytes) → Frame
exception_to_error_frame stream_id (protocol_error code data_bytes) text =
    error_frame stream_id code (some data_bytes)
exception_to_error_frame stream_id (stream_id_in_use id) text =
    error_frame stream_id ErrorCode.rejected none
exception_to_error_frame stream_id exception text =
    error_frame stream_id ErrorCode.application_error (some (text exception))

-- The exception by an error frame's code and text; the text of a `RuntimeError` is not modelled.
unfoldable pub exception_of : ErrorCode → Bytes → Error
exception_of code data_bytes =
    if code_value code == code_value ErrorCode.application_error
    then runtime_error
    else protocol_error code data_bytes

-- Of an error frame's code and data, which is decoded.
unfoldable pub error_frame_to_exception : ErrorCode → Bytes → Result Error
error_frame_to_exception code data_bytes =
    if is_utf8 data_bytes then ok (exception_of code data_bytes) else err unicode_decode_error

pub error_frame_to_exception-is_utf8 :
    (code : ErrorCode) (data_bytes : Bytes)
    → is_utf8 data_bytes ≡ true
    → error_frame_to_exception code data_bytes ≡ ok (exception_of code data_bytes)
unfolding error_frame_to_exception
error_frame_to_exception-is_utf8 code data_bytes h = rw h refl
