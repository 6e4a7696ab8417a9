-- ===== src/Tests/Arguments.antt =====
-- Arguments of the command line tool.
use your_stack.Common.{◌≡◌, refl}
use your_stack.Common.Text.{codes}
use your_stack.Cli.{parse_key_value, is_key, pair}
use your_stack.Cli.Quoting.{parse_key_value-quoted}

-- API_KEY="a="b", with a quote and an equals sign in the value.
parse_key_value-quoted_example :
    parse_key_value (codes "API_KEY=\"a=\"b\"")
    ≡ pair (record { key = codes "API_KEY"; value = codes "a=\"b" })
unfolding is_key
parse_key_value-quoted_example = parse_key_value-quoted (codes "API_KEY") (codes "a=\"b") refl
