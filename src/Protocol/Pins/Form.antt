-- ===== src/Protocol/Pins/Form.antt =====
-- `impl fmt::Display for PinSetting`: the text form of the command-line tools.
use hidpin.Base.{ℕ, ◌++◌, ◌==◌, if◌then◌else◌}
use hidpin.Base.Text.{Text, text, decimal}
use hidpin.Protocol.Pins.{PinMode, unused, input, pull_up, pull_down, output, PinSetting}

form : PinMode → ℕ → Text
form unused param = text "off"
form output param = if param == 0 then text "out:low" else text "out:high"
form input param = text "nopull:" ++ decimal param
form pull_up param = text "pullup:" ++ decimal param
form pull_down param = text "pulldown:" ++ decimal param

unfoldable pub display : PinSetting → Text
unfolding form
display s = form s.mode s.param
