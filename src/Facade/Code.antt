-- ===== src/Facade/Code.antt =====
-- The fixed parts of the code that runs a CommonJS source (src/worker/modules.rs).
use deno_director.Prelude.{◌++◌}
use deno_director.Prelude.Text.{Text, codes}

-- Of `build_node_cjs_interop_source`.
abbrev pub node_head : Text
node_head =
    codes "import { fileURLToPath as __ddFileURLToPath } from \"node:url\";\n"
    ++ codes "import { dirname as __ddDirname } from \"node:path\";\n"

abbrev pub node_setup : Text
node_setup =
    codes "const __ddFilename = __ddFileURLToPath(__ddUrl);\n"
    ++ codes "const __ddDir = __ddDirname(__ddFilename);\n"
    ++ codes
        "const __ddModule = { exports: {}, filename: __ddFilename, id: __ddFilename, loaded: false, paths: [], parent: null, children: [] };\n"
    ++ codes "const __ddRequireMap = new Map();\n"

abbrev pub node_require : Text
node_require =
    codes "const __ddRequire = (spec) => {\n"
    ++ codes "  const __ddMod = __ddRequireMap.get(String(spec));\n"
    ++ codes
        "  if (!__ddMod) throw new Error(`Unsupported require() in cjsInterop module: ${String(spec)}`);\n"
    ++ codes "  try {\n"
    ++ codes
        "    const __ddDef = (__ddMod && (typeof __ddMod === \"object\" || typeof __ddMod === \"function\")) ? __ddMod.default : undefined;\n"
    ++ codes
        "    if (__ddDef && (typeof __ddDef === \"object\" || typeof __ddDef === \"function\")) return __ddDef;\n"
    ++ codes "  } catch {}\n"
    ++ codes
        "  if (__ddMod && (typeof __ddMod === \"object\" || typeof __ddMod === \"function\")) {\n"
    ++ codes "    const __ddOut = Object.create(null);\n"
    ++ codes
        "    for (const __k of Object.keys(__ddMod)) { try { __ddOut[__k] = __ddMod[__k]; } catch {} }\n"
    ++ codes "    return __ddOut;\n"
    ++ codes "  }\n"
    ++ codes "  return __ddMod;\n"
    ++ codes "};\n"

abbrev pub node_end : Text
node_end =
    codes
      "const __ddWrapper = new Function(\"exports\", \"require\", \"module\", \"__filename\", \"__dirname\", __ddWrapperSource);\n"
    ++ codes
        "try { __ddWrapper.call(__ddModule.exports, __ddModule.exports, __ddRequire, __ddModule, __ddFilename, __ddDir); } finally { __ddModule.loaded = true; }\n"
    ++ codes "const __ddFinal = __ddModule.exports;\n"
    ++ codes
        "const __ddNamed = (__ddFinal && (typeof __ddFinal === \"object\" || typeof __ddFinal === \"function\")) ? __ddFinal : Object.create(null);\n"
    ++ codes "export default __ddFinal;\n"

-- Of `build_module_eval_cjs_source`.
abbrev pub eval_setup : Text
eval_setup =
    codes "const exports = {};\n"
    ++ codes
        "const module = { exports, filename: \"<module.eval:cjs>\", id: \"<module.eval:cjs>\", loaded: false, parent: null, children: [], paths: [] };\n"
    ++ codes "const __ddRequireMap = new Map();\n"

abbrev pub eval_require : Text
eval_require =
    codes "const require = (spec) => {\n"
    ++ codes "  const __ddMod = __ddRequireMap.get(String(spec));\n"
    ++ codes
        "  if (!__ddMod) throw new Error(`Unsupported require() in module.eval({ cjs: true }): ${String(spec)}`);\n"
    ++ codes "  try {\n"
    ++ codes
        "    const __ddDef = (__ddMod && (typeof __ddMod === \"object\" || typeof __ddMod === \"function\")) ? __ddMod.default : undefined;\n"
    ++ codes
        "    if (__ddDef && (typeof __ddDef === \"object\" || typeof __ddDef === \"function\")) return __ddDef;\n"
    ++ codes "  } catch {}\n"
    ++ codes
        "  if (__ddMod && (typeof __ddMod === \"object\" || typeof __ddMod === \"function\")) {\n"
    ++ codes "    const __ddOut = Object.create(null);\n"
    ++ codes
        "    for (const __k of Object.keys(__ddMod)) { try { __ddOut[__k] = __ddMod[__k]; } catch {} }\n"
    ++ codes "    return __ddOut;\n"
    ++ codes "  }\n"
    ++ codes "  return __ddMod;\n"
    ++ codes "};\n"

abbrev pub eval_end : Text
eval_end =
    codes
      "const __ddFn = new Function(\"exports\", \"require\", \"module\", \"__filename\", \"__dirname\", __ddSource);\n"
    ++ codes
        "try { __ddFn.call(module.exports, module.exports, require, module, module.filename, \".\"); } finally { module.loaded = true; }\n"
    ++ codes "const __ddFinal = module.exports;\n"
    ++ codes
        "const __ddNamed = (__ddFinal && (typeof __ddFinal === \"object\" || typeof __ddFinal === \"function\")) ? __ddFinal : Object.create(null);\n"
    ++ codes "export default __ddFinal;\n"
