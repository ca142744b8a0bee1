-- ===== src/Error/Display.antt =====
-- `impl fmt::Display for Error` of rust/src/error.rs: the text by which a watcher tells one cause
-- of failure from another.
use hidpin.Base.{Bool, true, false, none, some, ◌++◌, ◌==◌, if◌then◌else◌}
use hidpin.Base.Text.{Text, text, decimal, join}
use hidpin.Error.{
  ErrorKind, permission_denied, Error, device_not_found, several_devices, protocol_version_error,
  pin_config_rejected, pin_config_conflict, pin_config_mismatch, unsupported_platform,
  device_disconnected, watcher_closed, malformed, invalid_argument, open_error, io_error,
}
use hidpin.Protocol.ResultCode
use hidpin.Protocol.ResultCode.{result_gpio_none}
use hidpin.Protocol.Version.{protocol_version}

udev_advice : ErrorKind → Text
udev_advice permission_denied =
    text ". Install the udev rule and replug the board: sudo cp udev/60-hidpin.rules "
    ++ text "/etc/udev/rules.d/ && sudo udevadm control --reload-rules && sudo udevadm trigger"
udev_advice _ = text ""

rejection_origin : Bool → Text
rejection_origin true = text "the pin configuration is invalid (nothing was sent to the device): "
rejection_origin false = text "the device rejected the pin configuration: "

unfoldable pub display : Error → Text
unfolding udev_advice rejection_origin
display (device_not_found none) = text "no hidpin device found"
display (device_not_found (some serial)) =
    text "no hidpin device found: no device with serial number " ++ serial
display (several_devices serials) =
    text "several devices are connected; pick one with --serial: " ++ join (text ", ") serials
display (protocol_version_error v) =
    text "device speaks protocol version "
    ++ (decimal v ++ (text ", this library speaks " ++ decimal protocol_version))
display (pin_config_rejected result gpio here) =
    rejection_origin here
    ++ (ResultCode.message result
        ++ (if gpio == result_gpio_none
            then text ""
            else text " (GPIO" ++ (decimal gpio ++ text ")")))
display (pin_config_conflict expected seen) =
    text "another process changed the pin configuration (sent request_id "
    ++ (decimal expected ++ (text ", read back " ++ (decimal seen ++ text ")")))
display pin_config_mismatch =
    text "the configuration the device applied differs from the one that was sent"
display unsupported_platform = text "hidpin supports Linux (hidraw) only"
display device_disconnected = text "the hidpin device is not connected"
display watcher_closed = text "the watcher has stopped"
display (malformed message) = message
display (invalid_argument message) = message
display (open_error path source) =
    text "cannot open "
    ++ (path ++ (text " (" ++ (source.shown ++ (text ")" ++ udev_advice source.kind))))
display (io_error source) = source.shown
