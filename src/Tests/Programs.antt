-- ===== src/Tests/Programs.antt =====
-- The properties of the instruction words of src/parser_json/parser_json.cpp and
-- src/cpu/CONTROL_UNIT.cpp at small operands.
use multicore_simulator.Parser.Encode.Names.{SeenAs, seen, misread, seen-misread}

seen-misread_example : SeenAs (seen 8 9 10 0 4 5) misread
seen-misread_example = seen-misread 8 9 10 0 4 5
