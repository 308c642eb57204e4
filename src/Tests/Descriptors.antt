-- ===== src/Tests/Descriptors.antt =====
-- The descriptor of a method with three parameters; nothing is trimmed.
use polyloft_bvm.Prelude.{◌≡◌, List, [], ◌∷◌, map, Text, All, arith}
use polyloft_bvm.Token.{codes}
use polyloft_bvm.ClassFile.Descriptor.{method_descriptor, parse_method_descriptor}
use polyloft_bvm.ClassFile.Descriptor.Parse.{
  NoSemicolon, read_back, parse_method_descriptor-method_descriptor,
}

abbrev untrimmed : Text → Text
untrimmed v = v

abbrev kept : (v : Text) → NoSemicolon v → NoSemicolon (untrimmed v)
kept v h = h

abbrev parameters : List Text
parameters = codes "Int" ∷ codes "A[]" ∷ codes "p.B" ∷ []

parameters-NoSemicolon : All NoSemicolon parameters
parameters-NoSemicolon = (
  (omega arith, (omega arith, (omega arith, tt))),
  (
    (omega arith, (omega arith, (omega arith, tt))),
    ((omega arith, (omega arith, (omega arith, tt))), tt),
  ),
)

parse_method_descriptor-method_descriptor_example :
    parse_method_descriptor (method_descriptor untrimmed parameters (codes "Void"))
    ≡ (map (read_back untrimmed kept) parameters, read_back untrimmed kept (codes "Void"))
parse_method_descriptor-method_descriptor_example =
    parse_method_descriptor-method_descriptor untrimmed kept parameters (codes "Void")
      parameters-NoSemicolon
